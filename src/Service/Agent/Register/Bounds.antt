-- ===== src/Service/Agent/Register/Bounds.antt =====
-- packages/service/src/service.ts: what a registered identity may have. Scopes and resources as
-- `registerIdentity` bounds them.
use warden_md.Common.{
  Option-cases, get_or, includes, append, pure, ℕ, ◌+◌, ◌*◌, String, ◌≡◌, refl, ◌⊎◌, inl, inr, true,
  not, ◌||◌, Option, none, some, List, arith, ◌==◌,
}
use warden_md.Service.Agent.Quiet.{
  Quiet, Quiet-pure, Quiet-throw, Quiet-require, Quiet-gets, Quiet-ceremony, Quiet-guard,
  Quiet-bind, Quiet-then, Quiet-need, Quiet-identifier, Quiet-verify,
}
use warden_md.Service.Jose.Verify.{Expected}
use warden_md.Service.Json.{property, optional_text}
use warden_md.Service.Claim.{take_allowance}
use warden_md.Service.Errors.{
  invalid_client, invalid_grant, invalid_request, invalid_scope, invalid_target,
  temporarily_unavailable,
}
use warden_md.Service.Types.{
  IdentityType, anonymous, service_auth, identity_assertion, ServiceIdentity,
}
use warden_md.Service.Agent.{
  ServiceAuthResult, AgentDeps, Agent, in_ceremony, given, first_of, scopes_within, or_fallback,
  requested_scopes, agent_identifier, configured_resource, verify_jwt, identity_endpoint,
}
use warden_md.Service.Agent.Register.{
  RegistrationRequest, conflicts, require_configured, resource_or_throw, new_identity,
  register_anonymous, ask, authenticate, register_scopes, register_service, register_assertion,
  register_by_type,
}
use warden_md.Service.Agent.Scopes.{
  scopes_within_trans, fallback-within, configured_resource-eq-some,
}

module _ (d : AgentDeps) where
  abbrev InService : String → Type 0
  InService resource = includes d.protected_resources resource ≡ true

  -- A resource that was asked for and let through is one of the service's.
  abbrev pub Configured : Option String → Type 0
  Configured none = Unit {0}
  Configured (some resource) = InService resource

  -- An anonymous identity expires the configured time after its creation, any other never.
  abbrev pub expiry_for : IdentityType → ℕ → Option ℕ
  expiry_for anonymous at = some (at + d.anonymous_options.expires_in_seconds * 1000)
  expiry_for service_auth at = none
  expiry_for identity_assertion at = none

  -- The bounds of an identity that was registered for a request.
  pub record IsBounded (type : IdentityType) (at : ℕ) (identity : ServiceIdentity) : Type 0 where
    pub of_type : identity.type ≡ type
    pub within : scopes_within identity.scopes d.supported_scopes ≡ true
    pub has_resource :
        (resource : String) × (identity.resource ≡ some resource)
        × ((resource ≡ d.default_resource) ⊎ InService resource)
    pub live : identity.revoked_at ≡ none
    pub created : identity.created_at ≡ at
    pub expiry : identity.expires_at ≡ expiry_for type at

module _ (d : AgentDeps) where
  new_identity-IsBounded :
      (type : IdentityType) (id : String) (scopes : List String) (requested vouched : Option String)
      (client_id subject : Option String) (at : ℕ)
      → scopes_within scopes d.supported_scopes ≡ true
      → Configured d requested
      → Configured d vouched
      → IsBounded d type at (
          new_identity d type id scopes
            (get_or vouched (get_or requested d.default_resource))
            client_id
            subject
            at
            (expiry_for d type at))
  unfolding new_identity
  new_identity-IsBounded type id scopes requested vouched client_id subject at within p q = record {
    of_type = refl;
    within = within;
    has_resource = (get_or vouched (get_or requested d.default_resource), refl, chosen vouched q);
    live = refl;
    created = refl;
    expiry = refl;
  }
    where
      asked :
          (o : Option String)
          → Configured d o
          → (get_or o d.default_resource ≡ d.default_resource)
            ⊎ InService d (get_or o d.default_resource)
      asked none p = inl refl
      asked (some resource) p = inr p

      chosen :
          (o : Option String)
          → Configured d o
          → (get_or o (get_or requested d.default_resource) ≡ d.default_resource)
            ⊎ InService d (get_or o (get_or requested d.default_resource))
      chosen none q = asked requested p
      chosen (some resource) q = inr q

module _ (d : AgentDeps) {s0 : Agent} where
  pub resource_or_throw-Configured :
      (resource : Option String) → Quiet s0 (Configured d) (resource_or_throw d resource)
  unfolding resource_or_throw configured_resource
  resource_or_throw-Configured resource =
      elim (given resource)
        as (λ o. Quiet s0 (Configured d) (elim o [
          | none ↦ pure none
          | some text ↦ require_configured d (configured_resource d text)
        ])) [ none ↦ Quiet-pure (Configured d) none tt | some text ↦ found text ]
    where
      found :
          (text : String)
          → Quiet s0 (Configured d) (require_configured d (configured_resource d text))
      found text = elim (Option-cases (configured_resource d text)) [
        | inl absent ↦ rw absent (Quiet-throw (Configured d) invalid_target)
        | inr (resource, there) ↦ rw there (
            Quiet-pure (Configured d) (some resource)
              (configured_resource-eq-some d text resource there))
      ]

  register_scopes-within :
      (explicit vouched : List String)
      → Quiet s0
          (λ scopes. scopes_within scopes d.supported_scopes ≡ true)
          (register_scopes d explicit vouched)
  unfolding register_scopes
  register_scopes-within explicit vouched =
      let registered = or_fallback explicit vouched in
      Quiet-guard (λ scopes. scopes_within scopes d.supported_scopes ≡ true)
        (not (scopes_within vouched d.supported_scopes) || not (scopes_within registered vouched))
        invalid_scope _
        λ passed.
          Quiet-pure (λ scopes. scopes_within scopes d.supported_scopes ≡ true) registered
            (scopes_within_trans registered vouched d.supported_scopes (ground (arith, passed))
              (ground (arith, passed)))

  register_anonymous-IsBounded :
      (request : RegistrationRequest) (at : ℕ) (explicit : List String) (requested : Option String)
      → scopes_within explicit d.supported_scopes ≡ true
      → Configured d requested
      → Quiet s0
          (IsBounded d anonymous at)
          (register_anonymous d request at explicit (get_or requested d.default_resource))
  unfolding register_anonymous take_allowance
  register_anonymous-IsBounded request at explicit requested within p =
      let Q = IsBounded d anonymous at in
      let allowance =
        take_allowance d.claim (append "anonymous-registration:" request.rate_limit_key)
          d.anonymous_options.max_registrations_per_window
          d.anonymous_options.registration_window_seconds at in
      Quiet-then Q (in_ceremony allowance) _
        (Quiet-ceremony allowance (record { at = λ s. record { ticks = omega arith } }))
        λ allowed. Quiet-guard Q (not allowed) temporarily_unavailable _ λ passed.
          Quiet-then Q (agent_identifier d "identity") _ (Quiet-identifier d "identity") λ id.
            Quiet-pure Q _ (
              new_identity-IsBounded d anonymous id (or_fallback explicit d.supported_scopes)
                requested none request.client_id none at
                (fallback-within explicit d.supported_scopes within) p tt)

  ask-Quiet :
      (authenticator : Option (ℕ → String → Option ServiceAuthResult)) (token : String)
      → Quiet s0 (λ _. Unit) (ask d authenticator token)
  ask-Quiet none token = Quiet-throw (λ _. Unit) invalid_client
  ask-Quiet (some f) token = Quiet-gets (λ _. Unit) (λ s. f s.ceremony.ticks token) (λ s r. tt)

  pub authenticate-Quiet : (token : Option String) → Quiet s0 (λ _. Unit) (authenticate d token)
  unfolding authenticate
  authenticate-Quiet service_token =
      Quiet-need (λ _. Unit) (given service_token) invalid_client _
        λ token _.
          Quiet-then (λ _. Unit) (ask d d.authenticator token) _ (ask-Quiet d.authenticator token)
            λ answer. record {
              at = λ s a r h. tt;
              moves = λ s r. (Quiet-require answer invalid_client).moves s r;
            }

  register_service-IsBounded :
      (request : RegistrationRequest) (at : ℕ) (explicit : List String) (requested : Option String)
      → Configured d requested
      → Quiet s0
          (IsBounded d service_auth at)
          (register_service d request at explicit requested (get_or requested d.default_resource))
  unfolding register_service
  register_service-IsBounded request at explicit requested p =
      let Q = IsBounded d service_auth at in
      Quiet-then Q (authenticate d request.service_token) _
        (authenticate-Quiet request.service_token)
        λ answer.
          let vouched_scopes = get_or answer.scopes d.supported_scopes in
          Quiet-bind Q (register_scopes d explicit vouched_scopes) _ _
            (register_scopes-within explicit vouched_scopes)
            λ scopes within.
              Quiet-bind Q (resource_or_throw d answer.resource) _ (Configured d)
                (resource_or_throw-Configured answer.resource)
                λ vouched q. Quiet-guard Q (conflicts vouched requested) invalid_target _ λ passed.
                  Quiet-then Q (agent_identifier d "identity") _ (Quiet-identifier d "identity")
                    λ id. Quiet-pure Q _ (
                      new_identity-IsBounded d service_auth id scopes requested vouched
                        (first_of answer.client_id request.client_id) (some answer.subject) at
                        within p q)

  register_assertion-IsBounded :
      (request : RegistrationRequest) (at : ℕ) (explicit : List String) (requested : Option String)
      → Configured d requested
      → Quiet s0
          (IsBounded d identity_assertion at)
          (register_assertion d request at explicit requested (get_or requested d.default_resource))
  unfolding register_assertion
  register_assertion-IsBounded request at explicit requested p =
      let Q = IsBounded d identity_assertion at in
      let expected : Expected = record {
        issuer = d.trusted_assertion_issuer;
        audience = identity_endpoint d;
      } in
      Quiet-need Q (given request.assertion) invalid_request _ λ text _.
        Quiet-need Q (given request.client_id) invalid_request _ λ client_id _.
          Quiet-bind Q (verify_jwt d d.verification_keys expected true text) _ _
            (Quiet-verify d d.verification_keys expected true text)
            λ assertion _.
              let claims = assertion.claims.all_claims in
              let asserted = optional_text (property "resource" claims) in
              let vouched_scopes =
                requested_scopes (optional_text (property "scope" claims)) d.supported_scopes in
              Quiet-need Q (optional_text (property "client_id" claims)) invalid_grant _ λ client _.
                Quiet-guard Q (not (client == client_id)) invalid_grant _ λ same.
                  Quiet-bind Q (register_scopes d explicit vouched_scopes) _ _
                    (register_scopes-within explicit vouched_scopes)
                    λ scopes within.
                      Quiet-bind Q (resource_or_throw d asserted) _ (Configured d)
                        (resource_or_throw-Configured asserted)
                        λ vouched q.
                          Quiet-guard Q (conflicts vouched requested) invalid_target _ λ agreed.
                            Quiet-then Q (agent_identifier d "identity") _
                              (Quiet-identifier d "identity")
                              λ id. Quiet-pure Q _ (
                                new_identity-IsBounded d identity_assertion id scopes requested
                                  vouched (some client) (some assertion.claims.sub) at within p q)

  pub register_by_type-IsBounded :
      (type : IdentityType) (request : RegistrationRequest) (at : ℕ) (explicit : List String)
      (requested : Option String)
      → scopes_within explicit d.supported_scopes ≡ true
      → Configured d requested
      → Quiet s0 (IsBounded d type at) (
          register_by_type d type request at explicit requested
            (get_or requested d.default_resource))
  unfolding register_by_type
  register_by_type-IsBounded anonymous request at explicit requested within p =
      register_anonymous-IsBounded request at explicit requested within p
  register_by_type-IsBounded service_auth request at explicit requested within p =
      register_service-IsBounded request at explicit requested p
  register_by_type-IsBounded identity_assertion request at explicit requested within p =
      register_assertion-IsBounded request at explicit requested p
