-- ===== src/Service/Router/Tests.antt =====
-- Runs of the router over a concrete service.
use warden_md.Service.Agent.Example.{agent_deps, agent_at}
use warden_md.Service.Agent.Exchange.{jwt_bearer_grant}
use warden_md.Service.Router.{HttpRequest}
use warden_md.Service.Router.Routes.{fetch}
use warden_md.Common.Map.{Map}
use warden_md.Service.Router.Answers.{fetch_safe}
use warden_md.Common.{String, ◌≡◌, refl, none, some, [], ◌∷◌}

abbrev request_of : String → String → HttpRequest
request_of method path = record {
  method = method;
  path = path;
  json = none;
  form = some (("grant_type", jwt_bearer_grant) ∷ ("assertion", "h.t.s") ∷ ("client_id", "c") ∷ []);
  connecting_ip = none;
  forwarded_for = none;
}

abbrev origin_text : String → String
origin_text s = s

fetch_safe_example :
    (fetch agent_deps origin_text (request_of "GET" "/auth.md") (agent_at 0)).1 ≡ agent_at 0
fetch_safe_example =
    fetch_safe agent_deps origin_text (request_of "GET" "/auth.md") (agent_at 0) refl
