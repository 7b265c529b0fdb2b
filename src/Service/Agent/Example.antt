-- ===== src/Service/Agent/Example.antt =====
-- A concrete service: a platform, an identity and a token, for tests of packages/service.
use warden_md.Common.Map.{Map}
use warden_md.Service.Claim.{
  default_claim_options, with_version, find_claim_by_id, may_replace, compare_and_set, transition,
  require_claim, claim_now, next_identifier, take_allowance, expire_if_needed,
}
use warden_md.Service.Claim.Operations.{consume_current, consume_found, consume_approved_claim}
use warden_md.Service.Agent.Exchange.{
  TokenExchangeRequest, jwt_bearer_grant, claim_grant_type, join_spaces, claim_id_of,
  authorize_claim, claim_authorization, bearer_authorization, identity_for_exchange, narrow,
  new_token, issue_token, exchange_token,
}
use warden_md.Service.Types.{
  approved, ClaimRecord, anonymous, identity_assertion, ServiceIdentity, IssuedToken,
}
use warden_md.Common.{
  leb, if◌then◌else◌, split_from, append, ℕ, String, true, none, some, [], ◌∷◌, ◌==◌,
}
use warden_md.Common.Map
use warden_md.Service.Store.{
  create_identity, find_identity_by_id, create_identity_attempt, create_token, find_token_by_id,
  revoke_found, revoke_token, still_used, mark_if_unused, list_subscribers, create_event,
  create_delivery,
}
use warden_md.Service.RateLimit.{opens_window, take}
use warden_md.Service.Json.{
  Json, integer, string, object, end, field, property, optional_text, strings_of,
}
use warden_md.Service.Encoding.{words_from, distinct_from, split_scope}
use warden_md.Service.Jose.{
  audience_of, audience_contains, parse_header, parse_claims, standard_alphabet, decode_signature,
  parts_of, sign_jwt,
}
use warden_md.Service.Jose.Keys.{resolve_static}
use warden_md.Service.Jose.Verify.{decode_jwt, is_expected, is_current, is_signed}
use warden_md.Service.Agent.{
  AgentDeps, Agent, without_trailing_slash, scopes_within, same_scopes, requested_scopes,
  bad_resource_url, normalize_resource, agent_now, agent_identifier, configured_resource,
  resource_matches, has_expired, require_active_identity, mark_replay, verify_jwt, endpoint,
}
use warden_md.Service.Agent.Register.{
  RegistrationRequest, resource_or_throw, new_identity, register_anonymous, authenticate,
  register_scopes, register_service, register_assertion, register_by_type, try_register,
  record_rejected, record_accepted, settle_registration, register_identity,
}
use warden_md.Service.Agent.Claims.{chosen_resource}
use warden_md.Service.Agent.Tokens.{
  differs_from_stored, audience_from_payload, payload_part, check_stored, validate_access_token,
  payload_of, own_resource, verify_own_token_for_revocation, open_deliveries_for,
  announce_revocation, announce_found, revoke_own, revoke_fields, revoke,
}
use warden_md.Service.Agent.Events.{
  token_revoked_event, after_attempt, sign_security_event, attempt_delivery, receive_verified,
  receive_security_event,
}

-- Everything that the operations compute with.
unfoldable pub service_machine : Unit {0}
unfolding register_identity try_register register_by_type register_anonymous register_service
    register_assertion register_scopes resource_or_throw new_identity settle_registration
    record_accepted record_rejected authenticate exchange_token identity_for_exchange
    claim_authorization bearer_authorization claim_id_of authorize_claim narrow new_token
    issue_token join_spaces validate_access_token check_stored differs_from_stored payload_of
    payload_part own_resource audience_from_payload verify_own_token_for_revocation revoke
    revoke_fields revoke_own announce_found announce_revocation open_deliveries_for
    receive_security_event receive_verified attempt_delivery after_attempt sign_security_event
    verify_jwt mark_replay agent_now agent_identifier configured_resource normalize_resource
    bad_resource_url without_trailing_slash resource_matches has_expired require_active_identity
    scopes_within same_scopes requested_scopes chosen_resource endpoint decode_jwt is_expected
    is_current is_signed parts_of split_from parse_header parse_claims audience_of audience_contains
    strings_of optional_text property decode_signature standard_alphabet sign_jwt resolve_static
    split_scope words_from distinct_from claim_now next_identifier take_allowance take opens_window
    create_identity find_identity_by_id create_identity_attempt create_token find_token_by_id
    revoke_token revoke_found mark_if_unused still_used consume_approved_claim require_claim
    find_claim_by_id consume_found expire_if_needed consume_current transition compare_and_set
    may_replace with_version list_subscribers create_event create_delivery Map.get Map.set
service_machine = tt

abbrev pub claims_json : String → Json
claims_json audience = object (
    field "iss" (string "https://as") (
      field "sub" (string "s") (
        field "aud" (string audience) (
          field "exp" (integer 2000) (
            field "iat" (integer 0) (
              field "jti" (string "j") (
                field "client_id" (string "c") (
                  field "identity_id" (string "i") (
                    field "scope" (string "read") (
                      field "events" (object (field token_revoked_event (object end) end))
                        end))))))))))

abbrev pub header_value : Json
header_value = object (field "alg" (string "ES256") (field "kid" (string "k") end))

abbrev pub grant_json : Json
grant_json = object (
    field "iss" (string "https://as") (
      field "sub" (string "i") (
        field "aud" (string "https://as/oauth2/token") (
          field "exp" (integer 2000) (
            field "iat" (integer 0) (
              field "jti" (string "claim-grant:c1") (
                field "purpose" (string "claim_grant")
                  (field "claim_id" (string "c1") (field "identity_id" (string "i") end)))))))))

-- The parts "h", "g", "p", "q" and "t": the header, the claims of a claim grant, and claims for the
-- resource, for events and for the token endpoint.
abbrev pub decode_part : String → Json
decode_part t =
    if t == "h"
    then header_value
    else if t == "g"
    then grant_json
    else claims_json (
        if t == "p"
        then "https://r"
        else if t == "q"
        then "https://as/agent/event/notify"
        else "https://as/oauth2/token")

abbrev pub agent_deps : AgentDeps
agent_deps = record {
  claim = record {
    clock = λ n. if leb 3 n then 3000000 else 1000000;
    next = λ n prefix. append prefix "-1";
    sha256 = λ t. t;
    to_upper_case = λ t. t;
    options = default_claim_options;
  };
  jose = record {
    encode_json = λ j. "e";
    decode_json = λ t. some (decode_part t);
    sign_text = λ t. "s";
    verify_text = λ k b t. true;
    atob = λ t. some [];
  };
  parse_url = λ t. some (record {
    protocol = "https:";
    hostname = "r";
    username = "";
    password = "";
    search = "";
    hash = "";
    href = t;
  });
  authenticator = none;
  verification_keys = λ n issuer kid. some 1;
  own_verification_keys = record { issuer = "https://as"; keys = ("k", 1) ∷ [] };
  key_id = "k";
  issuer = "https://as";
  supported_scopes = "read" ∷ "write" ∷ [];
  default_resource = "https://r";
  protected_resources = "https://r" ∷ [];
  trusted_assertion_issuer = "https://as";
  anonymous_options = record {
    expires_in_seconds = 60;
    max_registrations_per_window = 3;
    registration_window_seconds = 60;
  };
  token_expires_in_seconds = 300;
}

abbrev pub asserted_identity : ServiceIdentity
asserted_identity = record {
  id = "i";
  type = identity_assertion;
  scopes = "read" ∷ "write" ∷ [];
  resource = some "https://r";
  client_id = some "c";
  subject = some "s";
  created_at = 1;
  expires_at = none;
  revoked_at = none;
}

abbrev pub valid_token : IssuedToken
valid_token = record {
  id = "j";
  identity_id = "i";
  subject = "s";
  scopes = "read" ∷ [];
  resource = "https://r";
  issued_at = 0;
  expires_at = 2000000;
  revoked_at = none;
}

-- The state after a number of clock readings.
abbrev pub agent_at : ℕ → Agent
agent_at ticks = record {
  store = record {
    identities = ("i", asserted_identity) ∷ [];
    identity_attempts = [];
    tokens = ("j", valid_token) ∷ [];
    replays = [];
    subscribers = [];
    events_by_id = [];
    event_id_by_token = [];
    deliveries = [];
  };
  ceremony = record { claims = []; buckets = []; ticks = ticks; drawn = 0 };
}

abbrev pub registration_of : String → RegistrationRequest
registration_of scope = record {
  identity_type = anonymous;
  scope = some scope;
  resource = none;
  client_id = none;
  service_token = none;
  assertion = none;
  rate_limit_key = "ip";
}

abbrev pub exchange_request : TokenExchangeRequest
exchange_request = record {
  grant_type = jwt_bearer_grant;
  assertion = some "h.t.s";
  claim_grant = none;
  client_id = some "c";
  scope = none;
  resource = none;
}

abbrev pub grant_request : TokenExchangeRequest
grant_request = record {
  grant_type = claim_grant_type;
  assertion = none;
  claim_grant = some "h.g.s";
  client_id = none;
  scope = none;
  resource = none;
}

abbrev pub approved_claim : ClaimRecord
approved_claim = record {
  id = "c1";
  identity_id = "i";
  user_code_hash = "u";
  device_code_hash = "d";
  status = approved;
  scopes = "read" ∷ [];
  resource = some "https://r";
  created_at = 0;
  expires_at = 5000000;
  interval_seconds = 5;
  last_poll_at = none;
  verification_attempts = 1;
  user_code_used_at = some 1;
  grant_used_at = none;
  version = 3;
}

abbrev pub agent_with_claim : Agent
agent_with_claim = record (agent_at 0) {
  ceremony = record { claims = ("c1", approved_claim) ∷ []; buckets = []; ticks = 0; drawn = 0 };
}
