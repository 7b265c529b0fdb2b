-- ===== src/Broker/Middleware/Tests.antt =====
-- The adapters of packages/broker/src/middleware.ts at concrete requests.
use warden_md.Common.{
  is_some, append, String, ◌≡◌, refl, ◌≢◌, true, false, Option, none, some, [], ◌∷◌,
}
use warden_md.Broker.Types.{consumed, allow, ConsumeResult}
use warden_md.Broker.Core.{Broker}
use warden_md.Broker.Run.{do_exchange, start, run}
use warden_md.Broker.Run.Safety.{run-IsWellFormed}
use warden_md.Broker.Example.{machine, tally, tally-IsDistinct, deps, proposal_for}
use warden_md.Broker.Middleware.{
  MiddlewareOptions, ResourceRequest, local_consumer, configured_consumer, after_prefix, bearer_of,
  preverify, use_credential, same_origin, workers_handler, create_workers_handler,
}
use warden_md.Broker.Middleware.Node.{
  one_header, many_headers, NodeRequest, node_credentials, finish, consume_and_finish, node_use,
  node_middleware, create_node_middleware,
}
use warden_md.Broker.Middleware.Once.{IsGuarded, workers_handler-IsGuarded, handled_once}
use warden_md.Broker.Middleware.Agree.{agreed, adapters_agree}

-- What the adapters compute with.
unfoldable adapters : Unit {0}
unfolding machine tally after_prefix bearer_of preverify use_credential same_origin workers_handler
    node_credentials finish consume_and_finish node_use node_middleware
adapters = tt

abbrev options : MiddlewareOptions
options = record {
  broker = some deps;
  consumer = none;
  verifier = some (λ credential at. none);
  audience = "https://r";
  now = λ n. 1000000;
  on_evidence = some (λ used. true);
}

abbrev request_of : String → String → ResourceRequest
request_of payload jti = record {
  method = "GET";
  url = "https://r/";
  authorization = some (append (append "Bearer h." payload) ".s");
  dpop = some (append (append "h." jti) ".s");
}

abbrev node_request : NodeRequest
node_request = record {
  method = none;
  original_url = none;
  authorization = one_header "Bearer h.p.s";
  dpop = many_headers ("h.j.s" ∷ "h.k.s" ∷ []);
}

abbrev with_grant : Broker
with_grant = run deps (do_exchange (proposal_for "t") ∷ []) start

abbrev consumed_result : ConsumeResult
consumed_result = record {
  grant = record {
    id = "grant_";
    status = consumed;
    agent_id = "a";
    subject_id = "s";
    subject_token_id = "t";
    action = "GET /";
    audience = "https://r";
    requested_scope = "read" ∷ [];
    granted_scope = "read" ∷ [];
    dpop_thumbprint = "thumb";
    policy_decision = allow;
    approver = some "policy";
    approval_reference = none;
    issued_at = some 1000000;
    expires_at = 1300000;
    consumed_at = some 1000000;
    completed_at = none;
    completion_source = none;
    evidence_id = none;
  };
  evidence = none;
}

workers_handler-IsGuarded_example :
    IsGuarded deps deps.parse_url options (request_of "p" "j") with_grant consumed_result
unfolding adapters
workers_handler-IsGuarded_example =
    workers_handler-IsGuarded deps deps.parse_url options (request_of "p" "j") with_grant refl

configured :
    is_some (create_workers_handler deps.parse_url options) ≡ true
    × is_some (create_node_middleware (λ url base. some "https://r/") options) ≡ true
    × is_some (
        create_workers_handler deps.parse_url
          (record options { consumer = some (local_consumer deps) }))
      ≡ false
unfolding create_workers_handler create_node_middleware configured_consumer
configured = (refl, refl, refl)

handled_once_example : ◌≢◌ {A = String} "grant_iiiii" "grant_"
unfolding adapters
handled_once_example =
    handled_once deps deps.parse_url options tally-IsDistinct (do_exchange (proposal_for "u") ∷ [])
      with_grant (run-IsWellFormed deps tally-IsDistinct (do_exchange (proposal_for "t") ∷ []))
      (request_of "p" "j") (request_of "q" "k") refl refl

abbrev node_url : String → String → Option String
node_url url base = some "https://r/"

adapters_agree_example :
    node_middleware node_url options (local_consumer deps) node_request with_grant
    ≡ agreed (
        workers_handler deps.parse_url options
          (local_consumer deps)
          (request_of "p" "j")
          with_grant)
unfolding adapters
adapters_agree_example =
    adapters_agree node_url options (local_consumer deps) deps.parse_url node_request
      (request_of "p" "j") with_grant refl refl refl refl refl
