-- ===== src/Service/Agent/Exchange/Authorized.antt =====
-- packages/service/src/service.ts: for whom `exchangeToken` issues a token, and what it may do.
use warden_md.Service.Jose.{VerifiedJwt}
use warden_md.Common.{
  leb, leb→lt, is_some, gets, ℕ, ◌≤◌, ◌<◌, String, ◌≡◌, refl, sym, ap, ◌∙◌, subst, true, false, not,
  Option, none, some, arith, ◌==◌, eq_iff,
}
use warden_md.Service.Errors.{
  invalid_grant, invalid_request, invalid_scope, invalid_target, unsupported_grant_type,
}
use warden_md.Service.Types.{
  ClaimRecord, IdentityType, anonymous, service_auth, identity_assertion, ServiceIdentity,
}
use warden_md.Service.Store.{ServiceStore, find_identity_by_id}
use warden_md.Service.Claim.{claim_now}
use warden_md.Service.Claim.Operations.{consume_approved_claim}
use warden_md.Service.Json.{property, string_of, optional_text}
use warden_md.Service.Jose.Verify.{Expected}
use warden_md.Service.Claim.Ticks.{consume_approved_claim-Later}
use warden_md.Service.Agent.{
  AgentDeps, Agent, in_ceremony, given, scopes_within, requested_scopes, agent_now, has_expired,
  require_active_identity, own_keys, verify_jwt, token_endpoint,
}
use warden_md.Service.Agent.Quiet.{
  Same-refl, Quiet, Quiet-pure, Quiet-throw, Quiet-gets, Quiet-ceremony, Quiet-if, Quiet-guard,
  Quiet-bind, Quiet-need, IsVerified, Quiet-verify,
}
use warden_md.Service.Agent.Register.{resource_or_throw}
use warden_md.Service.Agent.Register.Bounds.{Configured, resource_or_throw-Configured}
use warden_md.Service.Agent.Exchange.{
  TokenExchangeRequest, ExchangeAuthorization, jwt_bearer_grant, claim_grant_type, is_type,
  is_option, claim_id_of, authorize_claim, claim_authorization, mismatched, not_matching,
  bearer_authorization, identity_for_exchange,
}

module _ (d : AgentDeps) (s0 : Agent) where
  -- An identity that the store had under the identifier, not revoked, and not expired at a reading of the clock since.
  pub record IsActive (id : String) (identity : ServiceIdentity) : Type 0 where
    pub found : find_identity_by_id id s0.store ≡ some identity
    pub live : identity.revoked_at ≡ none
    pub unexpired :
        (expires_at : ℕ)
        → identity.expires_at ≡ some expires_at
        → (tick : ℕ) × (s0.ceremony.ticks ≤ tick) × (d.claim.clock tick < expires_at)

  has_expired-lem :
      (expiry : Option ℕ)
      → Quiet s0
          (λ late.
            late ≡ false
            → (expires_at : ℕ) → expiry ≡ some expires_at
            → (tick : ℕ) × (s0.ceremony.ticks ≤ tick) × (d.claim.clock tick < expires_at))
          (has_expired d expiry)
  unfolding has_expired agent_now claim_now
  has_expired-lem none = record { at = λ s a r h e x g. absurd (cc g); moves = λ s r. Same-refl s }
  has_expired-lem (some expires_at) = record {
    at = λ s a r h early x g. (
      s.ceremony.ticks,
      r.later,
      let late : leb expires_at (d.claim.clock s.ceremony.ticks) ≡ a = cc h in
          let one : expires_at ≡ x = cc g in
          subst (λ e. d.claim.clock s.ceremony.ticks < e) one
            (leb→lt expires_at (d.claim.clock s.ceremony.ticks) (late ∙ early)),
    );
    moves = λ s r. record { store = refl; later = omega arith };
  }

  pub require_active_identity-IsActive :
      (id : String) → Quiet s0 (IsActive id) (require_active_identity d id)
  unfolding require_active_identity find_identity_by_id
  require_active_identity-IsActive id =
      let found : Option ServiceIdentity → Type 0 = λ o. find_identity_by_id id s0.store ≡ o in
      Quiet-bind (IsActive id) (gets (λ s. find_identity_by_id id s.store)) _ found
        (Quiet-gets found (λ s. find_identity_by_id id s.store)
          λ s r. sym (ap (λ (x : ServiceStore). find_identity_by_id id x) r.store))
        λ o there. Quiet-need (IsActive id) o invalid_grant _ λ identity is.
          Quiet-guard (IsActive id) (is_some identity.revoked_at) invalid_grant _ λ live.
            Quiet-bind (IsActive id) (has_expired d identity.expires_at) _ _
              (has_expired-lem identity.expires_at)
              λ late early. Quiet-guard (IsActive id) late invalid_grant _ λ now.
                Quiet-pure (IsActive id) identity
                  (record { found = there ∙ is; live = grind (arith, live); unexpired = early now })

  -- What an assertion allows that the request carries: it verifies with a key of the trusted issuer,
  -- names the identity, which is stored, active and of the type for assertions, and its subject and
  -- client, which is also the request's; the scopes are the ones it asks for, all of the identity's.
  pub record OfAssertion (request : TokenExchangeRequest) (a : ExchangeAuthorization) : Type 0 where
    pub text : String
    pub presented : given request.assertion ≡ some text
    pub jwt : VerifiedJwt
    pub verified :
        IsVerified d s0 d.verification_keys
          (record { issuer = d.trusted_assertion_issuer; audience = token_endpoint d })
          text
          jwt
    pub identity_id : String
    pub names : optional_text (property "identity_id" jwt.claims.all_claims) ≡ some identity_id
    pub active : IsActive identity_id a.identity
    pub client : String
    pub asserted : optional_text (property "client_id" jwt.claims.all_claims) ≡ some client
    pub of_request : given request.client_id ≡ some client
    pub fitting : mismatched d a.identity jwt.claims.sub client ≡ false
    pub of_type : a.identity.type ≡ identity_assertion
    pub scopes :
        a.allowed_scopes
        ≡ requested_scopes
            (optional_text (property "scope" jwt.claims.all_claims))
            a.identity.scopes
    pub within : scopes_within a.allowed_scopes a.identity.scopes ≡ true
    pub target : Configured d a.resource

  pub claim_id_of-Quiet :
      (verified : VerifiedJwt)
      → Quiet s0
          (λ id. string_of (property "claim_id" verified.claims.all_claims) ≡ some id)
          (claim_id_of d verified)
  unfolding claim_id_of
  claim_id_of-Quiet verified =
      let claims = verified.claims.all_claims in
      let Q : String → Type 0 = λ id. string_of (property "claim_id" claims) ≡ some id in
      Quiet-guard Q (not (is_option (string_of (property "purpose" claims)) "claim_grant"))
        invalid_grant _
        λ _. Quiet-need Q (string_of (property "claim_id" claims)) invalid_grant _ λ claim_id is.
          Quiet-guard Q
            (not (is_option (string_of (property "identity_id" claims)) verified.claims.sub))
            invalid_grant _ λ _. Quiet-pure Q claim_id is

  -- What follows the consumption gives the scopes and the resource of the claim to its identity.
  pub authorize_claim-Quiet :
      (v : VerifiedJwt) (claim : ClaimRecord)
      → Quiet s0
          (λ a.
            IsActive claim.identity_id a.identity
            × (a.allowed_scopes ≡ claim.scopes)
            × (a.resource ≡ claim.resource))
          (authorize_claim d v claim)
  unfolding authorize_claim
  authorize_claim-Quiet v claim =
      let Q : ExchangeAuthorization → Type 0 = λ a.
        IsActive claim.identity_id a.identity
        × (a.allowed_scopes ≡ claim.scopes)
        × (a.resource ≡ claim.resource) in
      Quiet-guard Q (not (claim.identity_id == v.claims.sub)) invalid_grant _ λ _.
        Quiet-bind Q (require_active_identity d claim.identity_id) _ _
          (require_active_identity-IsActive claim.identity_id)
          λ identity active. Quiet-pure Q _ (active, refl, refl)

  claim_authorization-Quiet :
      (request : TokenExchangeRequest) → Quiet s0 (λ _. Unit) (claim_authorization d request)
  unfolding claim_authorization
  claim_authorization-Quiet request =
      let Q : ExchangeAuthorization → Type 0 = λ _. Unit in
      let expected : Expected = record { issuer = d.issuer; audience = token_endpoint d } in
      Quiet-need Q (given request.claim_grant) invalid_request _ λ grant _.
        Quiet-bind Q (verify_jwt d (own_keys d) expected false grant) _ _
          (Quiet-verify d (own_keys d) expected false grant)
          λ verified _.
            Quiet-bind Q (claim_id_of d verified) _ _ (claim_id_of-Quiet verified) λ claim_id _.
              Quiet-bind Q (in_ceremony (consume_approved_claim d.claim claim_id)) _ (λ _. Unit)
                (Quiet-ceremony (consume_approved_claim d.claim claim_id)
                  (consume_approved_claim-Later d.claim claim_id))
                λ claim _. record {
                  at = λ s a r h. tt;
                  moves = (authorize_claim-Quiet verified claim).moves;
                }

  is_type-assertion :
      (t : IdentityType) → is_type t identity_assertion ≡ true → t ≡ identity_assertion
  is_type-assertion anonymous h = cc h
  is_type-assertion service_auth h = cc h
  is_type-assertion identity_assertion h = refl

  pub bearer_authorization-OfAssertion :
      (request : TokenExchangeRequest)
      → Quiet s0 (OfAssertion request) (bearer_authorization d request)
  unfolding bearer_authorization
  bearer_authorization-OfAssertion request =
      let Q = OfAssertion request in
      let expected : Expected = record {
        issuer = d.trusted_assertion_issuer;
        audience = token_endpoint d;
      } in
      Quiet-need Q (given request.assertion) invalid_request _ λ text presented.
        Quiet-need Q (given request.client_id) invalid_request _ λ client_id told.
          Quiet-bind Q (verify_jwt d d.verification_keys expected true text) _ _
            (Quiet-verify d d.verification_keys expected true text)
            λ verified proved.
              let claims = verified.claims.all_claims in
              Quiet-need Q (optional_text (property "identity_id" claims)) invalid_grant _
                λ id named.
                  Quiet-need Q (optional_text (property "client_id" claims)) invalid_grant _
                    λ client asserted.
                      Quiet-guard Q (not (client == client_id)) invalid_grant _ λ agreed.
                        Quiet-bind Q (require_active_identity d id) _ _
                          (require_active_identity-IsActive id)
                          λ identity active.
                            Quiet-guard Q (mismatched d identity verified.claims.sub client)
                              invalid_grant _
                              λ right.
                                let scopes =
                                  requested_scopes (optional_text (property "scope" claims))
                                    identity.scopes in
                                Quiet-guard Q (not (scopes_within scopes identity.scopes))
                                  invalid_scope _
                                  λ within.
                                    let asked = optional_text (property "resource" claims) in
                                    Quiet-bind Q (resource_or_throw d asked) _ _
                                      (resource_or_throw-Configured d asked)
                                      λ resource configured.
                                        Quiet-guard Q (not_matching d identity resource)
                                          invalid_target _
                                          λ _. Quiet-pure Q _ (record {
                                            text = text;
                                            presented = presented;
                                            jwt = verified;
                                            verified = proved;
                                            identity_id = id;
                                            names = named;
                                            active = active;
                                            client = client;
                                            asserted = asserted;
                                            of_request =
                                                told
                                                ∙ ap some (
                                                    sym (
                                                      (eq_iff client client_id).0
                                                        (ground (arith, agreed))));
                                            fitting = right;
                                            of_type =
                                                is_type-assertion identity.type
                                                  (ground (arith, right));
                                            scopes = refl;
                                            within = ground (arith, within);
                                            target = configured;
                                          })

  pub identity_for_exchange-Quiet :
      (request : TokenExchangeRequest) → Quiet s0 (λ _. Unit) (identity_for_exchange d request)
  unfolding identity_for_exchange
  identity_for_exchange-Quiet request =
      let Q : ExchangeAuthorization → Type 0 = λ _. Unit in
      Quiet-if Q (request.grant_type == claim_grant_type) _ _
        (λ _. claim_authorization-Quiet request)
        λ _.
          Quiet-if Q (request.grant_type == jwt_bearer_grant) _ _
            (λ _. record {
              at = λ s a r h. tt;
              moves = (bearer_authorization-OfAssertion request).moves;
            })
            (λ _. Quiet-throw Q unsupported_grant_type)
