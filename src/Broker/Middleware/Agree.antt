-- ===== src/Broker/Middleware/Agree.antt =====
-- packages/broker/src/middleware.ts: the adapters for Workers and for Node beside each other.
use warden_md.Common.{
  Bool-cases, Option-cases, Result, ok, err, String, ◌≡◌, refl, sym, ap, inl, inr, true, Option,
  none, some,
}
use warden_md.Broker.Types.{ConsumeResult}
use warden_md.Broker.Consume.{ConsumeInput}
use warden_md.Broker.Core.{Url, Broker}
use warden_md.Broker.Middleware.{
  Fault, broker_fault, other_fault, Consumer, MiddlewareOptions, Outcome, refused, handed, thrown,
  ResourceRequest, credential_error, bearer_of, preverify, settle, use_credential, same_origin,
  workers_handler,
}
use warden_md.Broker.Middleware.Node.{
  NodeRequest, as_header, given_or, node_credentials, finish, consume_and_finish, node_use,
  node_middleware,
}

-- The outcome without what the protected handler is given: `next` is given nothing.
abbrev pub without_result : Outcome ConsumeResult → Outcome (Unit {0})
without_result (refused code status) = refused code status
without_result (handed r) = handed tt
without_result thrown = thrown

abbrev pub agreed : Outcome ConsumeResult × Broker → Outcome (Unit {0}) × Broker
agreed (outcome, s) = (without_result outcome, s)

without_result-credential_error :
    (e : Fault) → without_result (credential_error e) ≡ credential_error e
without_result-credential_error (broker_fault e) = refl
without_result-credential_error other_fault = refl

same_credentials :
    (authorization dpop : Option String)
    → node_credentials authorization dpop ≡ bearer_of authorization dpop
unfolding node_credentials bearer_of
same_credentials none dpop = refl
same_credentials (some authorization) none = refl
same_credentials (some authorization) (some dpop) = refl

same_end :
    (options : MiddlewareOptions) (result : Result Fault ConsumeResult)
    → finish options result ≡ without_result (settle options result)
unfolding finish
same_end options (err (broker_fault e)) = refl
same_end options (err other_fault) = refl
same_end options (ok used) = elim (Option-cases options.on_evidence) [
  | inl none_given ↦ rw none_given refl
  | inr (f, given) ↦ elim (Bool-cases (f used)) [
    | inl taken ↦ rw (given, taken) refl
    | inr lost ↦ rw (given, lost) refl
  ]
]

module _ (resolve_url : String → String → Option String) (options : MiddlewareOptions)
    (consumer : Consumer) where
  same_use :
      (node : NodeRequest) (credential dpop method url : String) (s : Broker)
      → given_or "GET" node.method ≡ method
      → node_use resolve_url options consumer node credential dpop url s
        ≡ agreed (
            use_credential options consumer credential
              (record { token = dpop; method = method; url = url })
              s)
  unfolding node_use use_credential preverify consume_and_finish
  same_use node credential dpop method url s named =
      let input : ConsumeInput = record {
        credential = credential;
        proof = record { token = dpop; method = method; url = url };
        audience = options.audience;
      } in
      elim (Option-cases options.verifier) [
        | inl unset ↦
            rw (unset, named)
              (ap (λ o. (o, (consumer input s).1))
                (same_end (record options { verifier = none }) (consumer input s).0))
        | inr (verify, set) ↦ elim (Option-cases (verify credential (options.now s.ticks))) [
          | inl fine ↦
              rw (set, use_credential, fine, named)
                (ap (λ o. (o, (consumer input s).1))
                  (same_end (record options { verifier = some verify }) (consumer input s).0))
          | inr (e, bad) ↦
              rw (set, use_credential, bad)
                (ap (λ o. (o, s)) (sym (without_result-credential_error e)))
        ]
      ]

  -- The two adapters agree: where a Node request has the headers, the method and the resolved URL of
  -- a `Request` to the audience's origin, they refuse, throw or go on alike, with the same code and
  -- status, and leave the same state; what the Workers handler is given, `next` is not.
  pub adapters_agree :
      (parse_url : String → Option Url) (node : NodeRequest) (request : ResourceRequest)
      (s : Broker)
      → as_header node.authorization ≡ request.authorization
      → as_header node.dpop ≡ request.dpop
      → given_or "GET" node.method ≡ request.method
      → resolve_url (given_or "/" node.original_url) options.audience ≡ some request.url
      → same_origin (parse_url request.url) (parse_url options.audience) ≡ some true
      → node_middleware resolve_url options consumer node s
        ≡ agreed (workers_handler parse_url options consumer request s)
  unfolding node_middleware workers_handler
  adapters_agree parse_url node request s auth dpop method url here =
      elim (Option-cases (bearer_of request.authorization request.dpop)) [
        | inl unfit ↦
            rw (node_middleware, workers_handler, auth, dpop, same_credentials, unfit) refl
        | inr (pair, fit) ↦
            rw (node_middleware, workers_handler, auth, dpop, same_credentials, fit, url, here)
              (same_use node pair.0 pair.1 request.method request.url s method)
      ]
