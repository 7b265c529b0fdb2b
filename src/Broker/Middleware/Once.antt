-- ===== src/Broker/Middleware/Once.antt =====
-- packages/broker/src/middleware.ts: which requests reach the protected handler.
use warden_md.Broker.Invariant.{IsWellFormed}
use warden_md.Broker.Run.Safety.{single_use}
use warden_md.Broker.Run.{Operation, run}
use warden_md.Broker.Invariant.Exchange.{IsDistinct}
use warden_md.Common.{
  Bool-cases, Option-cases, Result, ok, err, String, ◌≡◌, refl, sym, ap, subst, ◌≢◌, inl, inr, true,
  false, Option, none, some, List,
}
use warden_md.Broker.Errors.{BrokerErrorCode}
use warden_md.Broker.Types.{ConsumeResult}
use warden_md.Broker.Core.{Url, Deps, Broker}
use warden_md.Broker.Consume.{ConsumeInput, consume}
use warden_md.Broker.Middleware.{
  Fault, broker_fault, other_fault, MiddlewareOptions, handed, ResourceRequest, credential_error,
  as_fault, local_consumer, bearer_of, preverify, evidence_taken, settle, use_credential,
  same_origin, workers_handler,
}

-- A request that reaches the handler: its headers are fit, its origin is the audience's, the verifier
-- accepts the credential if there is one, and the broker's consume of that credential for this method
-- and URL gave the result.
pub record IsGuarded (d : Deps) (parse_url : String → Option Url) (options : MiddlewareOptions)
    (request : ResourceRequest) (s : Broker) (r : ConsumeResult) : Type 0 where
  pub input : ConsumeInput
  pub credentials :
      bearer_of request.authorization request.dpop ≡ some (input.credential, input.proof.token)
  pub origin : same_origin (parse_url request.url) (parse_url options.audience) ≡ some true
  pub accepted : preverify options input.credential s ≡ none
  pub method : input.proof.method ≡ request.method
  pub url : input.proof.url ≡ request.url
  pub audience : input.audience ≡ options.audience
  pub consumed : (consume d input s).0 ≡ ok r
  pub reported : evidence_taken options r ≡ true
  pub after :
      (workers_handler parse_url options (local_consumer d) request s).1 ≡ (consume d input s).1

credential_error_refuses :
    (e : Fault) {r : ConsumeResult} → credential_error {A = ConsumeResult} e ≢ handed r
credential_error_refuses (broker_fault e) h = cc h
credential_error_refuses other_fault h = cc h

settle-handed :
    (options : MiddlewareOptions) (result : Result BrokerErrorCode ConsumeResult)
    {r : ConsumeResult}
    → settle options (as_fault result) ≡ handed r
    → (result ≡ ok r) × (evidence_taken options r ≡ true)
settle-handed options (err e) h = absurd (cc h)
settle-handed options (ok q) {r} h = elim (Bool-cases (evidence_taken options q)) [
  | inl taken ↦
      let same : q ≡ r = cc (rw taken at h) in
      (ap ok same, subst (λ x. evidence_taken options x ≡ true) same taken)
  | inr lost ↦ absurd (cc (rw lost at h))
]

module _ (d : Deps) where
  use_credential-handed :
      (options : MiddlewareOptions) (input : ConsumeInput) (s : Broker) {r : ConsumeResult}
      → input.audience ≡ options.audience
      → (use_credential options (local_consumer d) input.credential input.proof s).0 ≡ handed r
      → (preverify options input.credential s ≡ none)
        × ((consume d input s).0 ≡ ok r)
        × (evidence_taken options r ≡ true)
        × ((use_credential options (local_consumer d) input.credential input.proof s).1
            ≡ (consume d input s).1)
  unfolding use_credential
  use_credential-handed options input s audience h =
      elim (Option-cases (preverify options input.credential s)) [
        | inl accepted ↦
            let (done, taken) =
              settle-handed options (consume d input s).0
                (rw (use_credential, accepted, sym audience) at h) in
            (accepted, done, taken, rw (use_credential, accepted, sym audience) refl)
        | inr (e, rejected) ↦
            absurd (credential_error_refuses e (rw (use_credential, rejected) at h))
      ]

  module _ (parse_url : String → Option Url) (options : MiddlewareOptions) where
    -- A request that reaches the handler behind a local broker carries fit headers, is for the
    -- audience's origin, passed the verifier, and its credential was consumed by the broker for its
    -- own method and URL.
    pub workers_handler-IsGuarded :
        (request : ResourceRequest) (s : Broker) {r : ConsumeResult}
        → (workers_handler parse_url options (local_consumer d) request s).0 ≡ handed r
        → IsGuarded d parse_url options request s r
    unfolding workers_handler
    workers_handler-IsGuarded request s {r} h =
        elim (Option-cases (bearer_of request.authorization request.dpop)) [
          | inl unfit ↦ absurd (cc (rw (workers_handler, unfit) at h))
          | inr (pair, fit) ↦ with_credentials pair.0 pair.1 fit
        ]
      where
        with_credentials :
            (credential dpop : String)
            → bearer_of request.authorization request.dpop ≡ some (credential, dpop)
            → IsGuarded d parse_url options request s r
        with_credentials credential dpop fit =
            elim (Option-cases (same_origin (parse_url request.url) (parse_url options.audience))) [
              | inl bad ↦ absurd (cc (rw (workers_handler, fit, bad) at h))
              | inr (false, elsewhere) ↦ absurd (cc (rw (workers_handler, fit, elsewhere) at h))
              | inr (true, here) ↦
                  let input : ConsumeInput = record {
                    credential = credential;
                    proof = record { token = dpop; method = request.method; url = request.url };
                    audience = options.audience;
                  } in
                  let (accepted, done, taken, left) =
                    use_credential-handed options input s refl
                      (rw (workers_handler, fit, here) at h) in
                  record {
                    input = input;
                    credentials = fit;
                    origin = here;
                    accepted = accepted;
                    method = refl;
                    url = refl;
                    audience = refl;
                    consumed = done;
                    reported = taken;
                    after = rw (workers_handler, fit, here) left;
                  }
            ]

    -- One grant reaches the handler at most once: after a request reached it, whatever operations the
    -- broker runs, no request that reaches it is for the same grant, from a well-formed state and if
    -- no two draws of `randomUUID` agree.
    pub handled_once :
        IsDistinct d.random_uuid
        → (ops : List Operation) (s : Broker) → IsWellFormed d s
        → (first second : ResourceRequest) {r q : ConsumeResult}
        → (workers_handler parse_url options (local_consumer d) first s).0 ≡ handed r
        → (workers_handler parse_url options
            (local_consumer d)
            second
            (run d ops (workers_handler parse_url options (local_consumer d) first s).1)).0
          ≡ handed q
        → q.grant.id ≢ r.grant.id
    handled_once distinct ops s formed first second {r} {q} h k =
        let one = workers_handler-IsGuarded first s h in
        let s' = (workers_handler parse_url options (local_consumer d) first s).1 in
        let two = workers_handler-IsGuarded second (run d ops s') k in
        single_use d distinct ops s formed one.input two.input one.consumed
          (subst (λ t. (consume d two.input (run d ops t)).0 ≡ ok q) one.after two.consumed)
