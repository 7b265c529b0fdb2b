-- ===== src/Broker/Worker/Approval.antt =====
-- packages/broker/src/worker.ts: in whose name a grant is approved over HTTP.
use warden_md.Common.{
  Bool-cases, truthy, Result, ok, err, pure, ◌>>=◌, ◌>>◌, bind-eq-ok, bind-run, String, ◌≡◌, refl,
  sym, ap, ◌∙◌, subst, ◌≢◌, inl, inr, true, Option, none, some, arith,
}
use warden_md.Broker.Errors.{
  BrokerErrorCode, action_not_authorized, approval_required, grant_already_consumed, grant_expired,
  grant_not_found, grant_not_approved, invalid_credential, invalid_request,
  operator_authorization_required, policy_blocked, scope_not_authorized, token_already_exchanged,
  wrong_audience, wrong_dpop_key, dpop_proof_invalid, status_by_code,
}
use warden_md.Broker.Types.{ExchangeResult}
use warden_md.Broker.Core.{Deps, Broker}
use warden_md.Broker.Approve.{approve}
use warden_md.Broker.Worker.Steps.{authorized_by_same_state, after_await, scheduled_same_state}
use warden_md.Broker.Worker.{
  WorkerRequest, WorkerFault, broker_fault, scheduling_failed, other_fault, Authorizer,
  BrokerWorkerOptions, exchange_body, broker_error, WorkerResponse, to_approve, worker_route, H,
  as_worker_fault, await, json, settle_name, authorized_by, schedule_active_grant, post_approve,
  serve_route, answer, fetch_worker,
}

-- What an approval that went through rests on: the authorizer named an approver, with a name that is
-- not empty, the broker approved the grant in that name, the answer carries what it returned, and the
-- state left is what it left.
pub record IsApproved (d : Deps) (options : BrokerWorkerOptions) (request : WorkerRequest)
    (id : String) (s : Broker) (response : WorkerResponse) : Type 0 where
  pub asked : Authorizer
  pub name : String
  pub result : ExchangeResult
  pub configured : options.approval_authorizer ≡ some asked
  pub named : asked s.ticks request id ≡ ok (some name)
  pub not_empty : truthy name ≡ true
  pub done : (approve d id name s).0 ≡ ok result
  pub left : (fetch_worker d options request s).1 ≡ (approve d id name s).1
  pub replied : response.body ≡ exchange_body result

status_not_200 : (e : BrokerErrorCode) → status_by_code e ≢ 200
unfolding status_by_code
status_not_200 action_not_authorized h = omega (arith, h)
status_not_200 approval_required h = omega (arith, h)
status_not_200 grant_already_consumed h = omega (arith, h)
status_not_200 grant_expired h = omega (arith, h)
status_not_200 grant_not_found h = omega (arith, h)
status_not_200 grant_not_approved h = omega (arith, h)
status_not_200 BrokerErrorCode.grant_revoked h = omega (arith, h)
status_not_200 invalid_credential h = omega (arith, h)
status_not_200 invalid_request h = omega (arith, h)
status_not_200 operator_authorization_required h = omega (arith, h)
status_not_200 policy_blocked h = omega (arith, h)
status_not_200 scope_not_authorized h = omega (arith, h)
status_not_200 token_already_exchanged h = omega (arith, h)
status_not_200 wrong_audience h = omega (arith, h)
status_not_200 wrong_dpop_key h = omega (arith, h)
status_not_200 dpop_proof_invalid h = omega (arith, h)

settle_name-eq-ok :
    (e : BrokerErrorCode) (answer : Result WorkerFault (Option String)) {name : String}
    → settle_name e answer ≡ ok name
    → (answer ≡ ok (some name)) × (truthy name ≡ true)
settle_name-eq-ok e (err f) h = absurd (cc h)
settle_name-eq-ok e (ok none) h = absurd (cc h)
settle_name-eq-ok e (ok (some n)) {name} h = elim (Bool-cases (truthy n)) [
  | inl full ↦
      let same : n ≡ name = cc (rw full at h) in
      (ap (λ x. ok (some x)) same, subst (λ x. truthy x ≡ true) same full)
  | inr bare ↦ absurd (cc (rw bare at h))
]

authorized_by-eq-ok :
    (authorizer : Option Authorizer) (e : BrokerErrorCode) (request : WorkerRequest) (id : String)
    (s : Broker) {name : String}
    → (authorized_by authorizer e request id s).0 ≡ ok name
    → (authorize : Authorizer) × (authorizer ≡ some authorize)
      × (authorize s.ticks request id ≡ ok (some name))
      × (truthy name ≡ true)
unfolding authorized_by
authorized_by-eq-ok none e request id s h = absurd (cc h)
authorized_by-eq-ok (some f) e request id s h =
    let (named, full) = settle_name-eq-ok e (f s.ticks request id) h in (f, refl, named, full)

await-eq-ok :
    (r : Result BrokerErrorCode ExchangeResult) {a : ExchangeResult}
    → as_worker_fault r ≡ ok a
    → r ≡ ok a
await-eq-ok (ok x) h = cc h
await-eq-ok (err e) h = absurd (cc h)

module _ (d : Deps) (options : BrokerWorkerOptions) where
  post_approve-IsApproved :
      (request : WorkerRequest) (id : String) (s : Broker) {response : WorkerResponse}
      → worker_route request ≡ to_approve id
      → (post_approve d options request id s).0 ≡ ok response
      → IsApproved d options request id s response
  unfolding post_approve fetch_worker serve_route
  post_approve-IsApproved request id s {response} route h =
      let check = authorized_by options.approval_authorizer approval_required request id in
      let (name, passed, rest) = bind-eq-ok check (go_on id) s h in
      let still =
        authorized_by_same_state options.approval_authorizer approval_required request id s in
      let (authorize, configured, named, full) =
        authorized_by-eq-ok options.approval_authorizer approval_required request id s passed in
      let (result, done, last) =
        bind-eq-ok (await (approve d id name)) reply s
          (subst (λ t. (go_on id name t).0 ≡ ok response) still rest) in
      let (u, scheduled, final) =
        bind-eq-ok (schedule_active_grant d options result.grant)
          (λ _. pure (json 200 (exchange_body result))) (approve d id name s).1 last in
      let same : json 200 (exchange_body result) ≡ response = cc final in
      record {
        asked = authorize;
        name = name;
        result = result;
        configured = configured;
        named = named;
        not_empty = full;
        done = await-eq-ok (approve d id name s).0 done;
        left =
            rw (fetch_worker, route)
              (ap (λ (r : Result WorkerFault WorkerResponse × Broker). r.1)
                  (bind-run check (go_on id) s passed)
                ∙ ap (λ t. (go_on id name t).1) still
                ∙ after_await (approve d id name) reply s
                    (λ a t. scheduled_same_state d options (json 200 (exchange_body a)) a.grant t));
        replied = ap (λ (x : WorkerResponse). x.body) (sym same);
      }
    where
      reply : ExchangeResult → H WorkerResponse
      reply a = do schedule_active_grant d options a.grant; pure (json 200 (exchange_body a))

      go_on : String → String → H WorkerResponse
      go_on k name = await (approve d k name) >>= reply

  -- An approval over HTTP that is answered with 200 was made by the broker in the name that the
  -- configured authorizer gave for the request, which is not empty: the answer's body is the result
  -- of that approval, and the state left is the one that it left.
  pub fetch_worker-IsApproved :
      (request : WorkerRequest) (id : String) (s : Broker) {response : WorkerResponse}
      → worker_route request ≡ to_approve id
      → (fetch_worker d options request s).0 ≡ some response
      → response.status ≡ 200
      → IsApproved d options request id s response
  unfolding fetch_worker serve_route
  fetch_worker-IsApproved request id s {response} route h good =
      let given : answer d options (post_approve d options request id s).0 ≡ some response =
        rw (fetch_worker, route) at h in
      go (post_approve d options request id s).0 refl given
    where
      go :
          (r : Result WorkerFault WorkerResponse)
          → (post_approve d options request id s).0 ≡ r
          → answer d options r ≡ some response
          → IsApproved d options request id s response
      go (ok a) e k =
          let same : a ≡ response = cc k in
          post_approve-IsApproved request id s route (e ∙ ap ok same)
      go (err (broker_fault f)) e k =
          let same : json (status_by_code f) (broker_error f) ≡ response = cc k in
          absurd (status_not_200 f (ap (λ (x : WorkerResponse). x.status) same ∙ good))
      go (err scheduling_failed) e k = absurd (cc k)
      go (err other_fault) e k =
          let same : json 400 (broker_error invalid_request) ≡ response = cc k in
          let bad : 400 ≡ 200 = ap (λ (x : WorkerResponse). x.status) same ∙ good in
          absurd (omega (arith, bad))
