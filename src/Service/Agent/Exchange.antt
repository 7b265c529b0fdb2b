-- ===== src/Service/Agent/Exchange.antt =====
-- packages/service/src/service.ts: `exchangeToken`, and who may exchange.
pub mod Authorized
pub mod Issued
pub mod Once
pub mod Consumption
pub mod Single
use warden_md.Service.Jose.{VerifiedJwt, sign_jwt}
use warden_md.Service.Types.{
  ClaimRecord, IdentityType, anonymous, service_auth, identity_assertion, ServiceIdentity,
  IssuedToken,
}
use warden_md.Common.{
  if◌then◌else◌, get_or, append, pure, throw, require, throw_if, ◌>>=◌, ◌>>◌, ℕ, ◌+◌, ◌*◌, String,
  Bool, true, false, not, ◌||◌, Option, none, some, List, [], ◌∷◌, ◌==◌,
}
use warden_md.Service.Errors.{
  invalid_grant, invalid_request, invalid_scope, invalid_target, unsupported_grant_type,
}
use warden_md.Service.Store.{create_token}
use warden_md.Service.Claim.Operations.{consume_approved_claim}
use warden_md.Service.Json.{
  Json, integer, string, object, end, field, property, string_of, optional_text,
}
use warden_md.Service.Agent.{
  AgentDeps, S, in_ceremony, write_store, given, integer_seconds, scopes_within, requested_scopes,
  agent_now, agent_identifier, resource_matches, require_active_identity, own_keys, verify_jwt,
  token_endpoint,
}
use warden_md.Service.Agent.Register.{resource_or_throw}
use warden_md.Service.Agent.Claims.{chosen_resource}

pub record TokenExchangeRequest : Type 0 where
  pub grant_type : String
  pub assertion : Option String
  pub claim_grant : Option String
  pub client_id : Option String
  pub scope : Option String
  pub resource : Option String

pub record TokenExchangeResult : Type 0 where
  pub access_token : String
  pub expires_in : ℕ
  pub scope : String
  pub resource : String

pub record ExchangeAuthorization : Type 0 where
  pub identity : ServiceIdentity
  pub allowed_scopes : List String
  pub resource : Option String

abbrev pub jwt_bearer_grant : String
jwt_bearer_grant = "urn:ietf:params:oauth:grant-type:jwt-bearer"

abbrev pub claim_grant_type : String
claim_grant_type = "urn:workos:agent-auth:grant-type:claim"

-- `xs.join(" ")`
unfoldable pub join_spaces : List String → String
join_spaces [] = ""
join_spaces (x ∷ []) = x
join_spaces (x ∷ y ∷ rest) = append x (append " " (join_spaces (y ∷ rest)))

abbrev pub is_type : IdentityType → IdentityType → Bool
is_type anonymous anonymous = true
is_type service_auth service_auth = true
is_type identity_assertion identity_assertion = true
is_type _ _ = false

abbrev pub is_option : Option String → String → Bool
is_option none expected = false
is_option (some s) expected = s == expected

module _ (d : AgentDeps) where
  -- The claim that a grant of the service's own names.
  unfoldable pub claim_id_of : VerifiedJwt → S String
  claim_id_of verified = do
    throw_if
        (not (is_option (string_of (property "purpose" verified.claims.all_claims)) "claim_grant"))
        invalid_grant
    claim_id ← require (string_of (property "claim_id" verified.claims.all_claims)) invalid_grant
    throw_if
        (not (
          is_option (string_of (property "identity_id" verified.claims.all_claims))
            verified.claims.sub))
        invalid_grant
    pure claim_id

  -- What follows the consumption of the claim.
  unfoldable pub authorize_claim : VerifiedJwt → ClaimRecord → S ExchangeAuthorization
  authorize_claim verified claim = do
    throw_if (not (claim.identity_id == verified.claims.sub)) invalid_grant
    identity ← require_active_identity d claim.identity_id
    pure (record { identity = identity; allowed_scopes = claim.scopes; resource = claim.resource })

  unfoldable pub claim_authorization : TokenExchangeRequest → S ExchangeAuthorization
  claim_authorization request = do
    claim_grant ← require (given request.claim_grant) invalid_request
    verified ←
        verify_jwt d (own_keys d) (record { issuer = d.issuer; audience = token_endpoint d }) false
          claim_grant
    claim_id ← claim_id_of verified
    claim ← in_ceremony (consume_approved_claim d.claim claim_id)
    authorize_claim verified claim

  abbrev pub mismatched : ServiceIdentity → String → String → Bool
  mismatched identity subject client_id =
      not (is_type identity.type identity_assertion)
      || not (is_option identity.subject subject)
      || not (is_option identity.client_id client_id)

  abbrev pub not_matching : ServiceIdentity → Option String → Bool
  not_matching identity none = false
  not_matching identity (some resource) = not (resource_matches d identity resource)

  unfoldable pub bearer_authorization : TokenExchangeRequest → S ExchangeAuthorization
  unfolding resource_or_throw
  bearer_authorization request = do
    assertion ← require (given request.assertion) invalid_request
    client_id ← require (given request.client_id) invalid_request
    verified ←
        verify_jwt d d.verification_keys
          (record { issuer = d.trusted_assertion_issuer; audience = token_endpoint d }) true
          assertion
    identity_id ←
        require (optional_text (property "identity_id" verified.claims.all_claims)) invalid_grant
    asserted_client ←
        require (optional_text (property "client_id" verified.claims.all_claims)) invalid_grant
    throw_if (not (asserted_client == client_id)) invalid_grant
    identity ← require_active_identity d identity_id
    throw_if (mismatched identity verified.claims.sub asserted_client) invalid_grant
    let scopes =
        requested_scopes (optional_text (property "scope" verified.claims.all_claims))
          identity.scopes
    throw_if (not (scopes_within scopes identity.scopes)) invalid_scope
    resource ← resource_or_throw d (optional_text (property "resource" verified.claims.all_claims))
    throw_if (not_matching identity resource) invalid_target
    pure (record { identity = identity; allowed_scopes = scopes; resource = resource })

  unfoldable pub identity_for_exchange : TokenExchangeRequest → S ExchangeAuthorization
  identity_for_exchange request =
      if request.grant_type == claim_grant_type
      then claim_authorization request
      else if request.grant_type == jwt_bearer_grant
      then bearer_authorization request
      else throw unsupported_grant_type

  -- `authorization.resource !== undefined && authorization.resource !== resource`
  abbrev pub resource_differs : Option String → String → Bool
  resource_differs none resource = false
  resource_differs (some authorized) resource = not (authorized == resource)

  -- The scopes and the resource of the new token.
  unfoldable pub narrow : TokenExchangeRequest → ExchangeAuthorization → S (List String × String)
  unfolding chosen_resource resource_matches scopes_within
  narrow request authorization = do
    let scopes = requested_scopes request.scope authorization.allowed_scopes
    throw_if (not (scopes_within scopes authorization.allowed_scopes)) invalid_scope
    resource ←
        require
          (chosen_resource d request.resource (
            get_or authorization.resource
              (get_or authorization.identity.resource d.default_resource)))
          invalid_target
    throw_if
        (not (resource_matches d authorization.identity resource)
          || resource_differs authorization.resource resource)
        invalid_target
    pure (scopes, resource)

  unfoldable pub new_token : ServiceIdentity → List String → String → ℕ → String → IssuedToken
  new_token identity scopes resource now id = record {
    id = id;
    identity_id = identity.id;
    subject = get_or identity.subject identity.id;
    scopes = scopes;
    resource = resource;
    issued_at = now * 1000;
    expires_at = (now + d.token_expires_in_seconds) * 1000;
    revoked_at = none;
  }

  abbrev pub access_token_json : IssuedToken → ℕ → Json
  access_token_json token now = object (
      field "iss" (string d.issuer) (
        field "sub" (string token.subject) (
          field "aud" (string token.resource) (
            field "iat" (integer now) (
              field "exp" (integer (now + d.token_expires_in_seconds)) (
                field "jti" (string token.id) (
                  field "scope" (string (join_spaces token.scopes))
                    (field "identity_id" (string token.identity_id) end))))))))

  -- The token is stored, and signed.
  unfoldable pub issue_token : ServiceIdentity → List String → String → S TokenExchangeResult
  unfolding agent_now agent_identifier new_token sign_jwt
  issue_token identity scopes resource = do
    at ← agent_now d
    id ← agent_identifier d "token"
    let token = new_token identity scopes resource (integer_seconds at) id
    write_store (create_token token)
    pure (record {
      access_token = sign_jwt d.jose d.key_id (access_token_json token (integer_seconds at));
      expires_in = d.token_expires_in_seconds;
      scope = join_spaces scopes;
      resource = resource;
    })

  unfoldable pub exchange_token : TokenExchangeRequest → S TokenExchangeResult
  exchange_token request = do
    authorization ← identity_for_exchange request
    narrowed ← narrow request authorization
    issue_token authorization.identity narrowed.0 narrowed.1
