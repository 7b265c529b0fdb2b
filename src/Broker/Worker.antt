-- ===== src/Broker/Worker.antt =====
-- packages/broker/src/worker.ts: the broker behind HTTP.
pub mod Steps
pub mod Approval
mod Tests
use warden_md.Common.{
  if◌then◌else◌, truthy, split, Result, ok, err, Exec, pure, lift, require, ◌>>=◌, ◌>>◌, ℕ, String,
  Bool, ◌&&◌, ◌||◌, Option, none, some, List, [], ◌∷◌, ◌==◌,
}
use warden_md.Broker.Errors.{
  BrokerErrorCode, approval_required, grant_not_found, invalid_credential, invalid_request,
  operator_authorization_required, status_by_code,
}
use warden_md.Broker.Types.{
  proposed, approved, GrantProposal, operator, Grant, EvidenceRecord, ExchangeResult, ConsumeResult,
  same_status,
}
use warden_md.Broker.Core.{Deps, Broker, M}
use warden_md.Broker.Exchange.{authorize, exchange}
use warden_md.Broker.Approve.{approve}
use warden_md.Broker.Consume.{ConsumeInput, consume}
use warden_md.Broker.Finalize.{revoke}
use warden_md.Broker.Complete.{complete_authenticated, get_evidence}

-- The members of the body of a completion that the code reads.
pub record CompleteBody : Type 0 where
  pub credential : Option String
  pub proof_token : Option String

-- `request.json()`, as the route casts it; `none` where it throws.
pub record WorkerRequest : Type 0 where
  pub method : String
  pub url : String
  pub path : String
  pub proposal : Option GrantProposal
  pub consume_body : Option ConsumeInput
  pub complete_body : Option CompleteBody

-- What is thrown: a `BrokerError`, `ActiveGrantSchedulingError`, or something else.
pub data WorkerFault : Type 0 where
  broker_fault : BrokerErrorCode → WorkerFault
  scheduling_failed : WorkerFault
  other_fault : WorkerFault

-- What `authorize` gives for a request and a grant at a number of clock readings.
abbrev pub Authorizer : Type 0
Authorizer = ℕ → WorkerRequest → String → Result WorkerFault (Option String)

-- `BrokerWorkerOptions`; `on_active_grant` says whether it returns.
pub record BrokerWorkerOptions : Type 0 where
  pub approval_authorizer : Option Authorizer
  pub operator_authorizer : Option Authorizer
  pub on_active_grant : Option (Grant → Bool)

pub data WorkerBody : Type 0 where
  keys_body : WorkerBody
  exchange_body : ExchangeResult → WorkerBody
  consume_result : ConsumeResult → WorkerBody
  evidence_body : EvidenceRecord → WorkerBody
  broker_error : BrokerErrorCode → WorkerBody
  not_found : WorkerBody

pub record WorkerResponse : Type 0 where
  pub status : ℕ
  pub body : WorkerBody

-- What a request is for, with the grant that the path names.
pub data WorkerRoute : Type 0 where
  to_keys to_exchange to_consume to_nothing : WorkerRoute
  to_approve to_revoke to_complete to_evidence : String → WorkerRoute

-- `path.match(/^\/grants\/([^/]+)\/<action>$/u)`
abbrev pub grant_in : List String → String → Option String
grant_in (root ∷ grants ∷ id ∷ last ∷ []) action =
    if root == "" && grants == "grants" && truthy id && last == action then some id else none
grant_in _ action = none

abbrev pub or_route : Option String → (String → WorkerRoute) → WorkerRoute → WorkerRoute
or_route none f other = other
or_route (some id) f other = f id

unfoldable pub post_route : String → WorkerRoute
post_route path =
    let parts = split b'/' path in
    if path == "/exchange"
    then to_exchange
    else or_route (grant_in parts "approve") to_approve (
        or_route (grant_in parts "revoke") to_revoke (
          if path == "/consume"
          then to_consume
          else or_route (grant_in parts "complete") to_complete to_nothing))

unfoldable pub get_route : String → WorkerRoute
get_route path =
    if path == "/.well-known/jwks.json"
    then to_keys
    else or_route (grant_in (split b'/' path) "evidence") to_evidence to_nothing

unfoldable pub worker_route : WorkerRequest → WorkerRoute
worker_route request =
    if request.method == "GET"
    then get_route request.path
    else if request.method == "POST"
    then post_route request.path
    else to_nothing

abbrev pub H : Type 0 → Type 0
H A = Exec WorkerFault Broker A

abbrev pub as_worker_fault : {A : Type 0} → Result BrokerErrorCode A → Result WorkerFault A
as_worker_fault (ok a) = ok a
as_worker_fault (err e) = err (broker_fault e)

-- An operation of the broker, awaited.
abbrev pub await : {A : Type 0} → M A → H A
await m s = let (r, s') = m s in (as_worker_fault r, s')

abbrev pub json : ℕ → WorkerBody → WorkerResponse
json status body = record { status = status; body = body }

-- The grant's approver or operator, or the error for want of one.
abbrev pub named_or : BrokerErrorCode → Option String → Result WorkerFault String
named_or e none = err (broker_fault e)
named_or e (some name) = if truthy name then ok name else err (broker_fault e)

abbrev pub settle_name :
    BrokerErrorCode → Result WorkerFault (Option String) → Result WorkerFault String
settle_name e (err f) = err f
settle_name e (ok name) = named_or e name

unfoldable pub authorized_by :
    Option Authorizer → BrokerErrorCode → WorkerRequest → String → H String
authorized_by none e request id s = (err (broker_fault e), s)
authorized_by (some authorize) e request id s = (settle_name e (authorize s.ticks request id), s)

module _ (d : Deps) (options : BrokerWorkerOptions) where
  abbrev pub schedule : Option (Grant → Bool) → Grant → Result WorkerFault (Unit {0})
  schedule none grant = ok tt
  schedule (some f) grant = if f grant then ok tt else err scheduling_failed

  unfoldable pub schedule_active_grant : Grant → H (Unit {0})
  schedule_active_grant grant =
      if same_status grant.status proposed || same_status grant.status approved
      then lift (schedule options.on_active_grant grant)
      else pure tt

  unfoldable pub post_exchange : WorkerRequest → H WorkerResponse
  post_exchange request = do
    proposal ← require request.proposal other_fault
    result ← await (exchange d proposal)
    schedule_active_grant result.grant
    pure (json 201 (exchange_body result))

  unfoldable pub post_approve : WorkerRequest → String → H WorkerResponse
  post_approve request id = do
    approver ← authorized_by options.approval_authorizer approval_required request id
    result ← await (approve d id approver)
    schedule_active_grant result.grant
    pure (json 200 (exchange_body result))

  unfoldable pub post_revoke : WorkerRequest → String → H WorkerResponse
  post_revoke request id = do
    name ← authorized_by options.operator_authorizer operator_authorization_required request id
    evidence ← await (revoke d id operator)
    pure (json 200 (evidence_body evidence))

  unfoldable pub post_consume : WorkerRequest → H WorkerResponse
  post_consume request = do
    body ← require request.consume_body other_fault
    result ← await (consume d body)
    pure (json 200 (consume_result result))

  abbrev pub given_text : Option String → Result WorkerFault String
  given_text value = named_or invalid_credential value

  unfoldable pub post_complete : WorkerRequest → String → H WorkerResponse
  post_complete request id = do
    body ← require request.complete_body other_fault
    credential ← lift (given_text body.credential)
    token ← lift (given_text body.proof_token)
    evidence ← await (
        complete_authenticated d id credential
          (record { token = token; method = request.method; url = request.url }))
    pure (json 200 (evidence_body evidence))

  unfoldable pub get_evidence_record : String → H WorkerResponse
  get_evidence_record id = do
    found ← await (get_evidence id)
    record_found ← require found (broker_fault grant_not_found)
    pure (json 200 (evidence_body record_found))

  unfoldable pub serve_route : WorkerRoute → WorkerRequest → H WorkerResponse
  serve_route to_keys request = pure (json 200 keys_body)
  serve_route to_exchange request = post_exchange request
  serve_route to_consume request = post_consume request
  serve_route to_nothing request = pure (json 404 not_found)
  serve_route (to_approve id) request = post_approve request id
  serve_route (to_revoke id) request = post_revoke request id
  serve_route (to_complete id) request = post_complete request id
  serve_route (to_evidence id) request = get_evidence_record id

  -- The `catch`, with `none` where the error is thrown on.
  abbrev pub answer : Result WorkerFault WorkerResponse → Option WorkerResponse
  answer (ok response) = some response
  answer (err (broker_fault e)) = some (json (status_by_code e) (broker_error e))
  answer (err scheduling_failed) = none
  answer (err other_fault) = some (json 400 (broker_error invalid_request))

  -- `createBrokerWorker(broker, options).fetch`
  unfoldable pub fetch_worker : WorkerRequest → Broker → Option WorkerResponse × Broker
  unfolding serve_route worker_route
  fetch_worker request s =
      let (result, s') = serve_route (worker_route request) request s in (answer result, s')
