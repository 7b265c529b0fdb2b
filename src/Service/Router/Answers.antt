-- ===== src/Service/Router/Answers.antt =====
-- packages/service/src/router.ts: what an answer of the router says about the service behind it.
use warden_md.Common.Map.{Map, get}
use warden_md.Service.Agent.Exchange.{TokenExchangeRequest}
use warden_md.Service.Agent.{AgentDeps, Agent}
use warden_md.Service.Router.{HttpRequest}
use warden_md.Service.Router.Routes.{document_of, dispatch, fetch}
use warden_md.Common.{Bool-cases, Option-cases, String, ◌≡◌, refl, inl, inr, false, ◌==◌}
use warden_md.Common.Map

module _ (d : AgentDeps) (origin_of : String → String) where
  -- A request by another method than POST leaves the service as it is, whatever it asks for.
  pub fetch_safe :
      (request : HttpRequest) (s : Agent)
      → (request.method == "POST") ≡ false
      → (fetch d origin_of request s).1 ≡ s
  unfolding fetch dispatch
  fetch_safe request s other = elim (Bool-cases (request.method == "OPTIONS")) [
    | inl options ↦ rw options refl
    | inr rest ↦ elim (Bool-cases (request.method == "GET")) [
      | inl get ↦ elim (Option-cases (document_of request.path)) [
        | inl absent ↦ rw (rest, get, absent) refl
        | inr (which, there) ↦ rw (rest, get, there) refl
      ]
      | inr neither ↦ rw (rest, neither, other) refl
    ]
  ]

  -- The exchange that a request to the token endpoint asks for.
  abbrev pub exchange_of : Map String → String → TokenExchangeRequest
  exchange_of fields grant_type = record {
    grant_type = grant_type;
    assertion = Map.get "assertion" fields;
    claim_grant = Map.get "claim_grant" fields;
    client_id = Map.get "client_id" fields;
    scope = Map.get "scope" fields;
    resource = Map.get "resource" fields;
  }
