-- ===== src/Service/Agent/Register.antt =====
-- packages/service/src/service.ts: `registerIdentity`, with a record of every attempt.
pub mod Bounds
pub mod Attempts
use warden_md.Common.{
  get_or, append, Result, ok, err, pure, throw, require, gets, throw_if, ◌>>=◌, ◌>>◌, ℕ, ◌+◌, ◌*◌,
  String, Bool, true, false, not, ◌||◌, Option, none, some, List, ◌==◌,
}
use warden_md.Service.Errors.{
  OauthErrorCode, invalid_client, invalid_grant, invalid_request, invalid_scope, invalid_target,
  temporarily_unavailable, code_text,
}
use warden_md.Service.Types.{
  IdentityType, anonymous, service_auth, identity_assertion, ServiceIdentity, AttemptOutcome,
  accepted, rejected, IdentityAttempt,
}
use warden_md.Service.Store.{create_identity, create_identity_attempt}
use warden_md.Service.Claim.{take_allowance}
use warden_md.Service.Encoding.{split_scope}
use warden_md.Service.Json.{property, optional_text}
use warden_md.Service.Agent.{
  ServiceAuthResult, AgentDeps, S, in_ceremony, write_store, given, first_of, scopes_within,
  or_fallback, requested_scopes, agent_now, agent_identifier, configured_resource, verify_jwt,
  identity_endpoint,
}

pub record RegistrationRequest : Type 0 where
  pub identity_type : IdentityType
  pub scope : Option String
  pub resource : Option String
  pub client_id : Option String
  pub service_token : Option String
  pub assertion : Option String
  pub rate_limit_key : String

-- `xs.length > 0 ? xs : ys` is `or_fallback`; `a && b && a !== b` for texts that may be missing.
abbrev pub conflicts : Option String → Option String → Bool
conflicts none asked = false
conflicts (some found) none = false
conflicts (some found) (some asked) = not (asked == found)

module _ (d : AgentDeps) where
  abbrev pub require_configured : Option String → S (Option String)
  require_configured none = throw invalid_target
  require_configured (some resource) = pure (some resource)

  -- The configured resource of a text that may be missing; `invalid_target` where it is given and is
  -- not configured.
  unfoldable pub resource_or_throw : Option String → S (Option String)
  resource_or_throw resource = elim (given resource) [
    | none ↦ pure none
    | some text ↦ require_configured (configured_resource d text)
  ]

  unfoldable pub new_identity :
      IdentityType
      → String
      → List String
      → String
      → Option String
      → Option String
      → ℕ
      → Option ℕ
      → ServiceIdentity
  new_identity type id scopes resource client_id subject at expires_at = record {
    id = id;
    type = type;
    scopes = scopes;
    resource = some resource;
    client_id = client_id;
    subject = subject;
    created_at = at;
    expires_at = expires_at;
    revoked_at = none;
  }

  unfoldable pub register_anonymous :
      RegistrationRequest → ℕ → List String → String → S ServiceIdentity
  unfolding new_identity agent_identifier
  register_anonymous request at explicit_scopes resource = do
    allowed ← in_ceremony (
        take_allowance d.claim (append "anonymous-registration:" request.rate_limit_key)
          d.anonymous_options.max_registrations_per_window
          d.anonymous_options.registration_window_seconds at)
    throw_if (not allowed) temporarily_unavailable
    id ← agent_identifier d "identity"
    pure (
        new_identity anonymous id (or_fallback explicit_scopes d.supported_scopes) resource
          request.client_id none at (some (at + d.anonymous_options.expires_in_seconds * 1000)))

  abbrev pub ask :
      Option (ℕ → String → Option ServiceAuthResult) → String → S (Option ServiceAuthResult)
  ask none token = throw invalid_client
  ask (some authenticate) token = gets (λ s. authenticate s.ceremony.ticks token)

  -- `!request.serviceToken || !this.authenticator`, and its answer
  unfoldable pub authenticate : Option String → S ServiceAuthResult
  authenticate service_token = do
    token ← require (given service_token) invalid_client
    answer ← ask d.authenticator token
    require answer invalid_client

  -- The scopes that the other party vouches for, and of these the ones that are registered.
  unfoldable pub register_scopes : List String → List String → S (List String)
  unfolding scopes_within
  register_scopes explicit_scopes vouched = do
    let registered = or_fallback explicit_scopes vouched
    throw_if
        (not (scopes_within vouched d.supported_scopes) || not (scopes_within registered vouched))
        invalid_scope
    pure registered

  unfoldable pub register_service :
      RegistrationRequest → ℕ → List String → Option String → String → S ServiceIdentity
  unfolding new_identity agent_identifier authenticate register_scopes resource_or_throw
  register_service request at explicit_scopes requested_resource resource = do
    authenticated ← authenticate request.service_token
    scopes ← register_scopes explicit_scopes (get_or authenticated.scopes d.supported_scopes)
    authenticated_resource ← resource_or_throw authenticated.resource
    throw_if (conflicts authenticated_resource requested_resource) invalid_target
    id ← agent_identifier d "identity"
    pure (
        new_identity service_auth id scopes (get_or authenticated_resource resource)
          (first_of authenticated.client_id request.client_id) (some authenticated.subject) at none)

  unfoldable pub register_assertion :
      RegistrationRequest → ℕ → List String → Option String → String → S ServiceIdentity
  unfolding new_identity agent_identifier register_scopes resource_or_throw
  register_assertion request at explicit_scopes requested_resource resource = do
    assertion_text ← require (given request.assertion) invalid_request
    client_id ← require (given request.client_id) invalid_request
    assertion ←
        verify_jwt d d.verification_keys
          (record { issuer = d.trusted_assertion_issuer; audience = identity_endpoint d }) true
          assertion_text
    asserted_client ←
        require (optional_text (property "client_id" assertion.claims.all_claims)) invalid_grant
    throw_if (not (asserted_client == client_id)) invalid_grant
    scopes ← register_scopes explicit_scopes (
        requested_scopes (optional_text (property "scope" assertion.claims.all_claims))
          d.supported_scopes)
    assertion_resource ←
        resource_or_throw (optional_text (property "resource" assertion.claims.all_claims))
    throw_if (conflicts assertion_resource requested_resource) invalid_target
    id ← agent_identifier d "identity"
    pure (
        new_identity identity_assertion id scopes (get_or assertion_resource resource)
          (some asserted_client) (some assertion.claims.sub) at none)

  unfoldable pub register_by_type :
      IdentityType
      → RegistrationRequest
      → ℕ
      → List String
      → Option String
      → String
      → S ServiceIdentity
  register_by_type anonymous request at explicit_scopes requested_resource resource =
      register_anonymous request at explicit_scopes resource
  register_by_type service_auth request at explicit_scopes requested_resource resource =
      register_service request at explicit_scopes requested_resource resource
  register_by_type identity_assertion request at explicit_scopes requested_resource resource =
      register_assertion request at explicit_scopes requested_resource resource

  -- The body of the `try`.
  unfoldable pub try_register : RegistrationRequest → ℕ → S ServiceIdentity
  unfolding resource_or_throw
  try_register request at = do
    let explicit_scopes = split_scope request.scope
    throw_if (not (scopes_within explicit_scopes d.supported_scopes)) invalid_scope
    requested_resource ← resource_or_throw request.resource
    identity ←
        register_by_type request.identity_type request at explicit_scopes requested_resource
          (get_or requested_resource d.default_resource)
    write_store (create_identity identity)
    pure identity

  abbrev pub attempt_of :
      RegistrationRequest
      → ℕ
      → String
      → Option ServiceIdentity
      → AttemptOutcome
      → Option String
      → IdentityAttempt
  attempt_of request at id none outcome code = record {
    id = id;
    identity_type = request.identity_type;
    client_id = request.client_id;
    subject = none;
    outcome = outcome;
    error_code = code;
    occurred_at = at;
  }
  attempt_of request at id (some identity) outcome code = record {
    id = id;
    identity_type = request.identity_type;
    client_id = first_of identity.client_id request.client_id;
    subject = identity.subject;
    outcome = outcome;
    error_code = code;
    occurred_at = at;
  }

  unfoldable pub record_rejected : RegistrationRequest → ℕ → OauthErrorCode → S ServiceIdentity
  unfolding agent_identifier
  record_rejected request at code = do
    id ← agent_identifier d "identity-attempt"
    write_store
        (create_identity_attempt (attempt_of request at id none rejected (some (code_text code))))
    throw code

  unfoldable pub record_accepted : RegistrationRequest → ℕ → ServiceIdentity → S ServiceIdentity
  record_accepted request at identity = do
    write_store (
        create_identity_attempt (
          attempt_of request at (append "identity-attempt:" identity.id) (some identity) accepted
            none))
    pure identity

  unfoldable pub settle_registration :
      RegistrationRequest → ℕ → Result OauthErrorCode ServiceIdentity → S ServiceIdentity
  settle_registration request at (err code) = record_rejected request at code
  settle_registration request at (ok identity) = record_accepted request at identity

  unfoldable pub register_identity : RegistrationRequest → S ServiceIdentity
  unfolding settle_registration
  register_identity request = do
    at ← agent_now d
    λ s. let (result, s') = try_register request at s in settle_registration request at result s'
