-- ===== src/Service/Router/Routes.antt =====
-- packages/service/src/router.ts: the dispatch of `createRouter` by method and path, and its answers
-- to errors.
use warden_md.Common.{
  if◌then◌else◌, includes, Result, ok, err, pure, throw, String, not, Option, none, some, [], ◌∷◌,
  ◌==◌,
}
use warden_md.Service.Errors.{OauthErrorCode, invalid_request, oauth_status, code_text}
use warden_md.Service.Json.{string, object, end, field}
use warden_md.Service.Agent.{AgentDeps, Agent, S}
use warden_md.Service.Router.{
  HttpRequest, Document, auth_md, resource_metadata, server_metadata, public_keys, claim_notice,
  no_body, json_body, document, HttpResponse, post_identity, post_claim, post_complete, post_token,
  post_revoke, post_subscribe, post_event,
}

-- What a POST is for.
pub data Route : Type 0 where
  to_identity : Route
  to_claim : Route
  to_complete : Route
  to_token : Route
  to_revoke : Route
  to_subscribe : Route
  to_event : Route

unfoldable pub route_of : String → Option Route
route_of path =
    if path == "/agent/identity"
    then some to_identity
    else if includes
        ("/agent/identity/claim" ∷ "/agent/identity/claim/poll" ∷ "/agent/claim"
          ∷ "/agent/claim/poll" ∷ [])
        path
    then some to_claim
    else if includes ("/agent/identity/claim/complete" ∷ "/agent/claim/confirm" ∷ []) path
    then some to_complete
    else if includes ("/oauth2/token" ∷ "/token" ∷ []) path
    then some to_token
    else if includes ("/oauth2/revoke" ∷ "/revoke" ∷ []) path
    then some to_revoke
    else if path == "/agent/events/subscribe"
    then some to_subscribe
    else if path == "/agent/event/notify"
    then some to_event
    else none

unfoldable pub document_of : String → Option Document
document_of path =
    if path == "/auth.md"
    then some auth_md
    else if path == "/.well-known/oauth-protected-resource"
    then some resource_metadata
    else if path == "/.well-known/oauth-authorization-server"
    then some server_metadata
    else if path == "/.well-known/jwks.json"
    then some public_keys
    else if path == "/claim"
    then some claim_notice
    else none

abbrev pub serve : Document → HttpResponse
serve which = record { status = 200; body = document which }

-- `errorResponse`
abbrev pub error_response : OauthErrorCode → HttpResponse
error_response code = record {
  status = oauth_status code;
  body = json_body (object (field "error" (string (code_text code)) end));
}

-- `catch (error) { return errorResponse(error); }`
abbrev pub answer_of : Result OauthErrorCode HttpResponse → HttpResponse
answer_of (ok response) = response
answer_of (err code) = error_response code

module _ (d : AgentDeps) (origin_of : String → String) where
  unfoldable pub post_to : Route → HttpRequest → S HttpResponse
  post_to to_identity request = post_identity d origin_of request
  post_to to_claim request = post_claim d origin_of request
  post_to to_complete request = post_complete d origin_of request
  post_to to_token request = post_token d origin_of request
  post_to to_revoke request = post_revoke d origin_of request
  post_to to_subscribe request = post_subscribe d origin_of request
  post_to to_event request = post_event d origin_of request

  unfoldable pub post_path : Option Route → HttpRequest → S HttpResponse
  post_path none request = throw invalid_request
  post_path (some route) request = post_to route request

  abbrev pub get_document : Option Document → S HttpResponse
  get_document none = throw invalid_request
  get_document (some which) = pure (serve which)

  -- The body of the `try`.
  unfoldable pub dispatch : HttpRequest → S HttpResponse
  unfolding route_of document_of
  dispatch request =
      if request.method == "OPTIONS"
      then pure (record { status = 204; body = no_body })
      else if request.method == "GET"
      then get_document (document_of request.path)
      else if not (request.method == "POST")
      then throw invalid_request
      else post_path (route_of request.path) request

  -- `createRouter(service).fetch`
  unfoldable pub fetch : HttpRequest → Agent → HttpResponse × Agent
  unfolding dispatch
  fetch request s = let (result, s') = dispatch request s in (answer_of result, s')
