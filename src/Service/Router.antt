-- ===== src/Service/Router.antt =====
-- packages/service/src/router.ts: `createRouter`, the HTTP interface of `AgentAuthService`.
pub mod Routes
pub mod Answers
mod Tests
use Prim.Native.Char.{code}
use Prim.Native.String
use Prim.Native.String.{[], ◌∷◌}
use warden_md.Service.Claim.Operations.{Decision, decide_approved, decide_denied}
use warden_md.Service.Agent.Tokens.{TypeFault, reads_null, revoke}
use warden_md.Service.Agent.Events.{subscribe, receive_security_event}
use warden_md.Common.{
  eqb, if◌then◌else◌, truthy, split_from, split, append, is_space, Result, ok, err, pure, throw,
  require, ◌>>=◌, ◌>>◌, ℕ, ◌-◌, ◌/◌, String, Bool, true, false, not, ◌&&◌, ◌||◌, Option, none, some,
  List, [], ◌∷◌, ◌==◌,
}
use warden_md.Common.Map
use warden_md.Common.Map.{Map}
use warden_md.Service.Errors.{
  OauthErrorCode, authorization_pending, invalid_request, temporarily_unavailable,
}
use warden_md.Service.Types.{
  ClaimStatus, pending, user_verified, approved, denied, expired, ClaimRecord, IdentityType,
  anonymous, service_auth, identity_assertion,
}
use warden_md.Service.Json.{
  Json, null, boolean, integer, string, object, Fields, end, field, property, fields_of,
  optional_text,
}
use warden_md.Service.Agent.{AgentDeps, Agent, S, given, endpoint, token_endpoint}
use warden_md.Service.Agent.Register.{register_identity}
use warden_md.Service.Agent.Claims.{
  PollAnswer, still_pending, granted, start_claim, verify_claim_code, decide_claim, poll_claim,
}
use warden_md.Service.Agent.Exchange.{join_spaces, is_option, exchange_token}

-- What the code reads of a `Request`: `json` is `none` where parsing the body throws, and `form` are
-- the pairs of a body whose content type is the one of forms.
pub record HttpRequest : Type 0 where
  pub method : String
  pub path : String
  pub json : Option Json
  pub form : Option (List (String × String))
  pub connecting_ip : Option String
  pub forwarded_for : Option String

-- The documents that the router serves as they are.
pub data Document : Type 0 where
  auth_md : Document
  resource_metadata : Document
  server_metadata : Document
  public_keys : Document
  claim_notice : Document

pub data HttpBody : Type 0 where
  no_body : HttpBody
  json_body : Json → HttpBody
  document : Document → HttpBody

pub record HttpResponse : Type 0 where
  pub status : ℕ
  pub body : HttpBody

abbrev pub respond : Json → HttpResponse
respond body = record { status = 200; body = json_body body }

-- `readJson`
unfoldable pub read_json : HttpRequest → S Fields
read_json request = do
  body ← require request.json invalid_request
  require (fields_of body) invalid_request

-- The entries that are texts; a later one replaces an earlier one.
unfoldable pub text_entries : Fields → Map String → Map String
text_entries end fields = fields
text_entries (field key (string s) rest) fields = text_entries rest (Map.set key s fields)
text_entries (field key _ rest) fields = text_entries rest fields

-- `Object.fromEntries(new URLSearchParams(...))`
unfoldable pub form_entries : List (String × String) → Map String → Map String
form_entries [] fields = fields
form_entries ((key, value) ∷ rest) fields = form_entries rest (Map.set key value fields)

-- `readOAuthFields`
unfoldable pub read_oauth_fields : HttpRequest → S (Map String)
unfolding text_entries form_entries read_json
read_oauth_fields request = elim request.form [
  | none ↦ do body ← read_json request; pure (text_entries body [])
  | some pairs ↦ pure (form_entries pairs [])
]

-- `requiredString` of a JSON value, and of a field.
abbrev pub required_string : Option Json → S String
required_string value = require (optional_text value) invalid_request

abbrev pub required_field : Option String → S String
required_field value = require (given value) invalid_request

-- `text.trim()`
unfoldable pub trim_start : String → String
trim_start [] = ""
trim_start (c ∷ s) = let rest = trim_start s in if is_space (code c) then rest else c ∷ s

unfoldable pub trim_end : String → String
trim_end [] = ""
trim_end (c ∷ s) =
    let rest = trim_end s in if is_space (code c) && not (truthy rest) then "" else c ∷ rest

-- `text.split(",")[0]`
abbrev pub first_part : List String → String
first_part [] = ""
first_part (part ∷ parts) = part

unfoldable pub client_rate_limit_key : HttpRequest → String
unfolding trim_start trim_end split_from
client_rate_limit_key request = elim request.connecting_ip [
  | some ip ↦ ip
  | none ↦ elim request.forwarded_for [
    | some chain ↦ trim_end (trim_start (first_part (split b',' chain)))
    | none ↦ "unknown"
  ]
]

unfoldable pub identity_type_of : Option String → Option IdentityType
identity_type_of none = none
identity_type_of (some s) =
    if s == "anonymous"
    then some anonymous
    else if s == "service_auth"
    then some service_auth
    else if s == "identity_assertion"
    then some identity_assertion
    else none

abbrev pub identity_type_text : IdentityType → String
identity_type_text anonymous = "anonymous"
identity_type_text service_auth = "service_auth"
identity_type_text identity_assertion = "identity_assertion"

-- `{ ...(value ? { [key]: value } : {}), ...rest }`
abbrev pub text_if : String → Option String → Fields → Fields
text_if key none rest = rest
text_if key (some s) rest = if truthy s then field key (string s) rest else rest

-- `expiresAt ? Math.max(0, Math.floor((expiresAt - createdAt) / 1000)) : nothing`
abbrev pub expires_in_if : Option ℕ → ℕ → Fields → Fields
expires_in_if none created_at rest = rest
expires_in_if (some expires_at) created_at rest =
    if eqb expires_at 0
    then rest
    else field "expires_in" (integer ((expires_at - created_at) / 1000)) rest

abbrev pub status_text : ClaimStatus → String
status_text pending = "pending"
status_text user_verified = "user_verified"
status_text approved = "approved"
status_text denied = "denied"
status_text expired = "expired"

abbrev pub claim_json : ClaimRecord → Json
claim_json claim =
    object
      (field "claim_id" (string claim.id) (field "status" (string (status_text claim.status)) end))

-- `origin_of` is `new URL(...).origin` of a URL that parses.
module _ (d : AgentDeps) (origin_of : String → String) where
  abbrev pub claim_endpoint : String
  claim_endpoint = endpoint d "/agent/identity/claim"

  unfoldable pub post_identity : HttpRequest → S HttpResponse
  unfolding read_json
  post_identity request = do
    body ← read_json request
    identity_type ←
        require (identity_type_of (optional_text (property "identity_type" body))) invalid_request
    identity ← register_identity d (record {
      identity_type = identity_type;
      scope = optional_text (property "scope" body);
      resource = optional_text (property "resource" body);
      client_id = optional_text (property "client_id" body);
      service_token = optional_text (property "service_token" body);
      assertion = optional_text (property "assertion" body);
      rate_limit_key = client_rate_limit_key request;
    })
    pure (
        respond (
          object (
            field "identity_id" (string identity.id) (
              field "identity_type" (string (identity_type_text identity.type)) (
                field "scope" (string (join_spaces identity.scopes)) (
                  text_if "resource" identity.resource (
                    expires_in_if identity.expires_at identity.created_at
                      (field "claim_endpoint" (string claim_endpoint) end))))))))

  abbrev pub poll_response : PollAnswer → S HttpResponse
  poll_response still_pending = throw authorization_pending
  poll_response (granted claim grant) = pure (
      respond (
        object (
          field "status" (string "approved") (
            field "claim_grant" (string grant)
              (field "token_endpoint" (string (token_endpoint d)) end)))))

  -- A value in a condition: every value but `null`, `false`, zero and the empty text. A fraction is
  -- not zero.
  abbrev pub is_truthy : Option Json → Bool
  is_truthy none = false
  is_truthy (some null) = false
  is_truthy (some (boolean b)) = b
  is_truthy (some (integer n)) = not (eqb n 0)
  is_truthy (some (string s)) = truthy s
  is_truthy _ = true

  abbrev pub wants_poll : String → Fields → Bool
  wants_poll path body =
      path == "/agent/identity/claim/poll"
      || path == "/agent/claim/poll"
      || is_option (optional_text (property "action" body)) "poll"
      || is_truthy (property "device_code" body)

  unfoldable pub post_poll : Fields → S HttpResponse
  post_poll body = do
    device_code ← required_string (property "device_code" body)
    polled ← poll_claim d device_code
    poll_response polled

  unfoldable pub post_start : HttpRequest → Fields → S HttpResponse
  post_start request body = do
    identity_id ← required_string (property "identity_id" body)
    started ← start_claim d (record {
      identity_id = identity_id;
      scope = optional_text (property "scope" body);
      resource = optional_text (property "resource" body);
      rate_limit_key = client_rate_limit_key request;
    })
    let uri = append (origin_of claim_endpoint) "/claim"
    pure (
        respond (
          object (
            field "device_code" (string started.device_code) (
              field "user_code" (string started.user_code) (
                field "verification_uri" (string uri) (
                  field "verification_uri_complete" (string uri) (
                    field "expires_in"
                      (integer ((started.claim.expires_at - started.claim.created_at) / 1000))
                      (field "interval" (integer started.claim.interval_seconds) end))))))))

  unfoldable pub post_claim : HttpRequest → S HttpResponse
  unfolding read_json
  post_claim request = do
    body ← read_json request
    if wants_poll request.path body then post_poll body else post_start request body

  unfoldable pub post_verify : HttpRequest → Fields → S HttpResponse
  post_verify request body = do
    user_code ← required_string (property "user_code" body)
    claim ← verify_claim_code d user_code (some (client_rate_limit_key request))
    pure (respond (claim_json claim))

  unfoldable pub post_decision : Fields → Decision → S HttpResponse
  post_decision body decision = do
    claim_id ← required_string (property "claim_id" body)
    claim ← decide_claim d claim_id decision
    pure (respond (claim_json claim))

  unfoldable pub complete_by : HttpRequest → Fields → String → S HttpResponse
  complete_by request body action =
      if action == "verify"
      then post_verify request body
      else if action == "approve"
      then post_decision body decide_approved
      else if action == "deny"
      then post_decision body decide_denied
      else throw invalid_request

  unfoldable pub post_complete : HttpRequest → S HttpResponse
  unfolding read_json
  post_complete request = do
    body ← read_json request
    action ← required_string (property "action" body)
    complete_by request body action

  unfoldable pub post_token : HttpRequest → S HttpResponse
  post_token request = do
    fields ← read_oauth_fields request
    grant_type ← required_field (Map.get "grant_type" fields)
    result ← exchange_token d (record {
      grant_type = grant_type;
      assertion = Map.get "assertion" fields;
      claim_grant = Map.get "claim_grant" fields;
      client_id = Map.get "client_id" fields;
      scope = Map.get "scope" fields;
      resource = Map.get "resource" fields;
    })
    pure (
        respond (
          object (
            field "access_token" (string result.access_token) (
              field "token_type" (string "Bearer") (
                field "expires_in" (integer result.expires_in) (
                  field "scope" (string result.scope)
                    (field "resource" (string result.resource) end)))))))

  -- Any other error than an `OAuthError` is answered as `temporarily_unavailable`.
  abbrev pub revoked_or :
      Result TypeFault (Unit {0}) × Agent → Result OauthErrorCode (Unit {0}) × Agent
  revoked_or (ok tt, s) = (ok tt, s)
  revoked_or (err reads_null, s) = (err temporarily_unavailable, s)

  unfoldable pub post_revoke : HttpRequest → S HttpResponse
  post_revoke request = do
    fields ← read_oauth_fields request
    token ← required_field (Map.get "token" fields)
    revoked ← λ s. revoked_or (revoke d token s)
    pure (record { status = 200; body = no_body })

  unfoldable pub post_subscribe : HttpRequest → S HttpResponse
  unfolding read_json
  post_subscribe request = do
    body ← read_json request
    url ← required_string (property "url" body)
    subscriber ← subscribe d url (optional_text (property "service_token" body))
    pure (record {
      status = 201;
      body = json_body (object (field "subscriber_id" (string subscriber.id) end));
    })

  unfoldable pub post_event : HttpRequest → S HttpResponse
  unfolding read_json
  post_event request = do
    body ← read_json request
    event ← required_string (property "event" body)
    received ← receive_security_event d event
    pure (respond (object (field "accepted" (boolean true) end)))
