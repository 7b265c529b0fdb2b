-- ===== src/Broker/Worker/Steps.antt =====
-- packages/broker/src/worker.ts: a request over HTTP is one operation of the broker or none.
use warden_md.Common.{
  Bool-cases, Option-cases, length, Result, ok, err, pure, lift, require, continue, ◌>>=◌, ◌>>◌,
  bind_at, ◌≤◌, String, ◌≡◌, refl, sym, ap, ◌∙◌, subst, ◌⊎◌, inl, inr, ◌||◌, Option, none, some,
  List, [], ◌∷◌, arith,
}
use warden_md.Broker.Errors.{
  BrokerErrorCode, approval_required, invalid_credential, operator_authorization_required,
}
use warden_md.Broker.Types.{proposed, approved, operator, Grant, same_status}
use warden_md.Broker.Core.{Deps, Broker, M}
use warden_md.Broker.Store.{evidence_for}
use warden_md.Broker.Exchange.{exchange}
use warden_md.Broker.Approve.{approve}
use warden_md.Broker.Consume.{consume}
use warden_md.Broker.Finalize.{as_revoked, revoke}
use warden_md.Broker.Complete.{complete_authenticated}
use warden_md.Broker.Run.{
  Operation, do_exchange, do_approve, do_consume, do_finalize, do_complete, step, run,
}
use warden_md.Broker.Worker.{
  WorkerRequest, WorkerFault, other_fault, Authorizer, BrokerWorkerOptions, exchange_body,
  WorkerResponse, WorkerRoute, to_keys, to_exchange, to_consume, to_nothing, to_approve, to_revoke,
  to_complete, to_evidence, worker_route, H, as_worker_fault, await, json, named_or, authorized_by,
  schedule_active_grant, post_exchange, post_approve, post_revoke, post_consume, post_complete,
  get_evidence_record, serve_route, fetch_worker,
}

-- The state is what one operation leaves, or as it was.
abbrev pub IsStep : Deps → Broker → Broker → Type 0
IsStep d s t = ((op : Operation) × (t ≡ step d op s)) ⊎ (t ≡ s)

require_same_state :
    {A : Type 0} (o : Option A) (e : WorkerFault) (s : Broker)
    → (require {E = WorkerFault} o e s).1 ≡ s
require_same_state none e s = refl
require_same_state (some a) e s = refl

pub authorized_by_same_state :
    (authorizer : Option Authorizer) (e : BrokerErrorCode) (request : WorkerRequest) (id : String)
    (s : Broker)
    → (authorized_by authorizer e request id s).1 ≡ s
unfolding authorized_by
authorized_by_same_state none e request id s = refl
authorized_by_same_state (some f) e request id s = refl

-- An awaited operation, followed by what leaves the state alone.
pub after_await :
    {A B : Type 0} (m : M A) (k : A → H B) (s : Broker)
    → ((a : A) (t : Broker) → (k a t).1 ≡ t)
    → ((await m >>= k) s).1 ≡ (m s).1
after_await {A} m k s same = go (m s).0
  where
    go : (r : Result BrokerErrorCode A) → (continue (as_worker_fault r) k (m s).1).1 ≡ (m s).1
    go (ok a) = same a (m s).1
    go (err e) = refl

module _ (d : Deps) where
  after_check :
      {A B : Type 0} (m : H A) (f : A → H B) (s : Broker)
      → (m s).1 ≡ s
      → ((a : A) → IsStep d s (f a s).1)
      → IsStep d s ((m >>= f) s).1
  after_check {A} m f s same each =
      subst (λ t. IsStep d s (continue (m s).0 f t).1) (sym same) (go (m s).0)
    where
      go : (r : Result WorkerFault A) → IsStep d s (continue r f s).1
      go (ok a) = each a
      go (err e) = inr refl

  module _ (options : BrokerWorkerOptions) where
    schedule_same_state :
        (grant : Grant) (s : Broker) → (schedule_active_grant d options grant s).1 ≡ s
    unfolding schedule_active_grant
    schedule_same_state grant s =
        elim (Bool-cases (same_status grant.status proposed || same_status grant.status approved)) [
          | inl active ↦ rw (schedule_active_grant, active) refl
          | inr other ↦ rw (schedule_active_grant, other) refl
        ]

    pub scheduled_same_state :
        (response : WorkerResponse) (grant : Grant) (s : Broker)
        → ((do schedule_active_grant d options grant; pure response) s).1 ≡ s
    scheduled_same_state response grant s =
        bind_at (λ t. t ≡ s) (schedule_active_grant d options grant) (λ _. pure response) s
          (schedule_same_state grant s) (λ a t h. h)

    evidence_same_state : (id : String) (s : Broker) → (get_evidence_record d options id s).1 ≡ s
    unfolding get_evidence_record
    evidence_same_state id s = elim (Option-cases (evidence_for id s.store)) [
      | inl absent ↦ rw (get_evidence_record, absent) refl
      | inr (found, there) ↦ rw (get_evidence_record, there) refl
    ]

    serve_route-IsStep :
        (route : WorkerRoute) (request : WorkerRequest) (s : Broker)
        → IsStep d s (serve_route d options route request s).1
    unfolding serve_route post_exchange post_approve post_revoke post_consume post_complete
        get_evidence_record step
    serve_route-IsStep to_keys request s = inr refl
    serve_route-IsStep to_nothing request s = inr refl
    serve_route-IsStep to_exchange request s =
        after_check (require request.proposal other_fault) _ s
          (require_same_state request.proposal other_fault s)
          λ proposal. inl (
            do_exchange proposal,
            after_await (exchange d proposal) _ s
                (λ a t. scheduled_same_state (json 201 (exchange_body a)) a.grant t),
          )
    serve_route-IsStep to_consume request s =
        after_check (require request.consume_body other_fault) _ s
          (require_same_state request.consume_body other_fault s)
          λ input. inl (do_consume input, after_await (consume d input) _ s (λ a t. refl))
    serve_route-IsStep (to_approve id) request s =
        after_check (authorized_by options.approval_authorizer approval_required request id) _ s
          (authorized_by_same_state options.approval_authorizer approval_required request id s)
          λ name. inl (
            do_approve id name,
            after_await (approve d id name) _ s
                (λ a t. scheduled_same_state (json 200 (exchange_body a)) a.grant t),
          )
    serve_route-IsStep (to_revoke id) request s =
        after_check
          (authorized_by options.operator_authorizer operator_authorization_required request id) _ s
          (authorized_by_same_state options.operator_authorizer operator_authorization_required
            request id s)
          λ name. inl (
            do_finalize id operator as_revoked,
            after_await (revoke d id operator) _ s (λ a t. refl),
          )
    serve_route-IsStep (to_complete id) request s =
        after_check (require request.complete_body other_fault) _ s
          (require_same_state request.complete_body other_fault s)
          λ body.
            after_check (lift (named_or invalid_credential body.credential)) _ s refl λ credential.
              after_check (lift (named_or invalid_credential body.proof_token)) _ s refl λ token.
                inl (
                  do_complete id credential
                      (record { token = token; method = request.method; url = request.url }),
                  after_await
                      (complete_authenticated d id credential
                        (record { token = token; method = request.method; url = request.url }))
                      _ s (λ a t. refl),
                )
    serve_route-IsStep (to_evidence id) request s = inr (evidence_same_state id s)

    fetch_worker-IsStep :
        (request : WorkerRequest) (s : Broker) → IsStep d s (fetch_worker d options request s).1
    unfolding fetch_worker
    fetch_worker-IsStep request s = serve_route-IsStep (worker_route request) request s

    -- Requests that are served one after another.
    unfoldable pub serve_all : List WorkerRequest → Broker → Broker
    serve_all [] s = s
    serve_all (request ∷ requests) s = serve_all requests (fetch_worker d options request s).1

    -- Whatever requests are served, one after another, they leave a state that a history of the
    -- broker's operations leaves, with no more operations than requests.
    pub serve_all-IsHistory :
        (requests : List WorkerRequest) (s : Broker)
        → (ops : List Operation) × (serve_all requests s ≡ run d ops s)
          × (length ops ≤ length requests)
    unfolding serve_all run
    serve_all-IsHistory [] s = ([], refl, omega arith)
    serve_all-IsHistory (request ∷ requests) s =
        let (ops, same, few) = serve_all-IsHistory requests (fetch_worker d options request s).1 in
        elim (fetch_worker-IsStep request s) [
          | inl (op, one) ↦ (op ∷ ops, same ∙ ap (run d ops) one, omega (arith, few))
          | inr none_taken ↦ (ops, same ∙ ap (run d ops) none_taken, omega (arith, few))
        ]
