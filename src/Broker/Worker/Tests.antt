-- ===== src/Broker/Worker/Tests.antt =====
-- The worker of packages/broker/src/worker.ts at concrete requests.
use warden_md.Common.{
  length, split_from, ok, ℕ, ◌≤◌, String, ◌≡◌, refl, Option, none, some, List, [], ◌∷◌,
}
use warden_md.Broker.Errors.{status_by_code}
use warden_md.Broker.Run.{Operation, start, run}
use warden_md.Broker.Example.{machine, tally, deps, proposal_for, use_of}
use warden_md.Broker.Worker.{
  WorkerRequest, BrokerWorkerOptions, not_found, WorkerResponse, post_route, get_route,
  worker_route, json, authorized_by, schedule_active_grant, post_exchange, post_approve,
  post_consume, serve_route, fetch_worker,
}
use warden_md.Broker.Store.{reserve_subject_token}
use warden_md.Broker.Types.{require_approval}
use warden_md.Broker.Core.{Deps, Broker}
use warden_md.Broker.Worker.Approval.{IsApproved, fetch_worker-IsApproved}
use warden_md.Broker.Worker.Steps.{serve_all, serve_all-IsHistory}

abbrev no_authorizers : BrokerWorkerOptions
no_authorizers = record {
  approval_authorizer = none;
  operator_authorizer = none;
  on_active_grant = none;
}

abbrev post_to_path : String → WorkerRequest
post_to_path path = record {
  method = "POST";
  url = "https://b";
  path = path;
  proposal = some (proposal_for "t");
  consume_body = some (use_of "p" "j");
  complete_body = none;
}

abbrev status_from : Option WorkerResponse → ℕ
status_from none = 0
status_from (some response) = response.status

-- An exchange and a consume.
abbrev requests : List WorkerRequest
requests = post_to_path "/exchange" ∷ post_to_path "/consume" ∷ []

statuses :
    (status_from (fetch_worker deps no_authorizers (post_to_path "/exchange") start).0 ≡ 201)
    × (status_from
          (fetch_worker deps no_authorizers
            (post_to_path "/consume")
            (serve_all deps no_authorizers (post_to_path "/exchange" ∷ []) start)).0
        ≡ 200)
    × (status_from
          (fetch_worker deps no_authorizers (post_to_path "/grants/grant_/approve") start).0
        ≡ 403)
    × (status_from (fetch_worker deps no_authorizers (post_to_path "/grants//revoke") start).0
        ≡ 404)
unfolding machine tally schedule_active_grant post_exchange post_approve post_consume post_route
    get_route worker_route authorized_by serve_route fetch_worker serve_all split_from
    status_by_code
statuses = (refl, refl, refl, refl)

serve_all-IsHistory_example :
    (ops : List Operation) × (serve_all deps no_authorizers requests start ≡ run deps ops start)
    × (length ops ≤ length requests)
serve_all-IsHistory_example = serve_all-IsHistory deps no_authorizers requests start

abbrev asking_deps : Deps
asking_deps = record deps { policy = record { default = require_approval; rules = [] } }

abbrev with_approver : BrokerWorkerOptions
with_approver = record {
  approval_authorizer = some (λ at request id. ok (some "owner"));
  operator_authorizer = none;
  on_active_grant = none;
}

abbrev proposed_state : Broker
proposed_state = serve_all asking_deps with_approver (post_to_path "/exchange" ∷ []) start

abbrev response_or : Option WorkerResponse → WorkerResponse
response_or none = json 0 not_found
response_or (some response) = response

abbrev approval_response : WorkerResponse
approval_response =
    response_or
      (fetch_worker asking_deps with_approver (post_to_path "/grants/grant_/approve")
        proposed_state).0

fetch_worker-IsApproved_example :
    IsApproved asking_deps with_approver
      (post_to_path "/grants/grant_/approve")
      "grant_"
      proposed_state
      approval_response
unfolding machine tally schedule_active_grant post_exchange post_approve post_route get_route
    worker_route authorized_by serve_route fetch_worker serve_all split_from reserve_subject_token
fetch_worker-IsApproved_example =
    fetch_worker-IsApproved asking_deps with_approver (post_to_path "/grants/grant_/approve")
      "grant_" proposed_state refl refl refl
