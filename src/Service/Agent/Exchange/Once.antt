-- ===== src/Service/Agent/Exchange/Once.antt =====
-- packages/service/src/service.ts: a claim grant that is exchanged twice. Nothing but the consumption
-- changes a claim.
use warden_md.Common.{
  leb, is_some, get_or, pure, require, gets, throw_if, ◌>>=◌, ◌>>◌, Moves, Moves-require,
  Moves-bind, Moves-throw_if, ℕ, String, ◌≡◌, refl, ◌∙◌, Bool, false, not, ◌||◌, Option, none, some,
  List, ◌==◌,
}
use warden_md.Service.Errors.{OauthErrorCode, invalid_grant, invalid_scope, invalid_target}
use warden_md.Service.Types.{ClaimRecord, ServiceIdentity}
use warden_md.Service.Store.{find_identity_by_id}
use warden_md.Service.Claim.{claim_now, next_identifier}
use warden_md.Service.Jose.{VerifiedJwt}
use warden_md.Service.Json.{property, string_of}
use warden_md.Service.Jose.Verify.{Expected, decode_jwt, is_expected, is_current, is_signed}
use warden_md.Service.Agent.{
  AgentDeps, Agent, S, integer_seconds, scopes_within, requested_scopes, agent_now,
  agent_identifier, resource_matches, has_expired, require_active_identity, mark_replay, verify_jwt,
}
use warden_md.Service.Agent.Claims.{chosen_resource}
use warden_md.Service.Agent.Exchange.{
  TokenExchangeRequest, ExchangeAuthorization, is_option, claim_id_of, authorize_claim,
  resource_differs, narrow, issue_token,
}

-- The claims are the same.
pub record Keeping (s t : Agent) : Type 0 where
  pub claims : t.ceremony.claims ≡ s.ceremony.claims

Keeping-refl : (s : Agent) → Keeping s s
Keeping-refl s = record { claims = refl }

Keeping-trans : (s t u : Agent) → Keeping s t → Keeping t u → Keeping s u
Keeping-trans s t u p q = record { claims = q.claims ∙ p.claims }

pub Keeping-bind :
    {A B : Type 0} (m : S A) (f : A → S B)
    → Moves Keeping m
    → ((a : A) → Moves Keeping (f a))
    → Moves Keeping (m >>= f)
Keeping-bind = Moves-bind Keeping Keeping-refl Keeping-trans

Keeping-need : {A : Type 0} (o : Option A) (e : OauthErrorCode) → Moves Keeping (require o e)
Keeping-need = Moves-require Keeping Keeping-refl Keeping-trans

Keeping-guard :
    {A : Type 0} (b : Bool) (e : OauthErrorCode) (n : S A)
    → Moves Keeping n
    → Moves Keeping (throw_if b e >> n)
Keeping-guard b e n p =
    Keeping-bind (throw_if b e) (λ _. n) (Moves-throw_if Keeping Keeping-refl b e) (λ _. p)

Keeping-gets : {A : Type 0} (f : Agent → A) → Moves Keeping (gets {E = OauthErrorCode} f)
Keeping-gets f = record { at = Keeping-refl }

Keeping-pure : {A : Type 0} (a : A) → Moves Keeping (pure {E = OauthErrorCode} a)
Keeping-pure a = record { at = Keeping-refl }

module _ (d : AgentDeps) where
  Keeping-now : Moves Keeping (agent_now d)
  unfolding agent_now claim_now
  Keeping-now = record { at = λ s. record { claims = refl } }

  pub verify-Keeping :
      (resolve : ℕ → String → String → Option ℕ) (expected : Expected) (token : String)
      → Moves Keeping (verify_jwt d resolve expected false token)
  unfolding verify_jwt mark_replay
  verify-Keeping resolve expected token =
      Keeping-bind _ _ (Keeping-need (decode_jwt d.jose token) invalid_grant) λ opened.
        Keeping-guard (not (is_expected expected opened.claims)) invalid_grant _ (
          Keeping-bind (agent_now d) _ Keeping-now λ at.
            Keeping-guard (not (is_current (integer_seconds at) opened.claims)) invalid_grant _ (
              let find : Agent → Option ℕ =
                λ s. resolve s.ceremony.ticks opened.claims.iss opened.header.kid in
              Keeping-bind (gets find) _ (Keeping-gets find) λ found.
                Keeping-bind _ _ (Keeping-need found invalid_grant) λ key.
                  Keeping-guard (not (is_signed d.jose key opened)) invalid_grant _ (
                    Keeping-bind (mark_replay d false opened.claims)
                      (λ _. pure (record { header = opened.header; claims = opened.claims }))
                      (Keeping-pure tt)
                      (λ _.
                        Keeping-pure (record { header = opened.header; claims = opened.claims })))))

  has_expired-Keeping : (o : Option ℕ) → Moves Keeping (has_expired d o)
  unfolding has_expired
  has_expired-Keeping none = Keeping-pure false
  has_expired-Keeping (some e) =
      Keeping-bind (agent_now d) _ Keeping-now λ at. Keeping-pure (leb e at)

  active-Keeping : (id : String) → Moves Keeping (require_active_identity d id)
  unfolding require_active_identity
  active-Keeping id =
      Keeping-bind (gets (λ s. find_identity_by_id id s.store)) _
        (Keeping-gets (λ s. find_identity_by_id id s.store))
        λ found. Keeping-bind _ _ (Keeping-need found invalid_grant) λ identity.
          Keeping-guard (is_some identity.revoked_at) invalid_grant _ (
            Keeping-bind (has_expired d identity.expires_at) _
              (has_expired-Keeping identity.expires_at)
              λ late. Keeping-guard late invalid_grant _ (Keeping-pure identity))

  pub claim_id_of-Keeping : (v : VerifiedJwt) → Moves Keeping (claim_id_of d v)
  unfolding claim_id_of
  claim_id_of-Keeping v =
      let claims = v.claims.all_claims in
      Keeping-guard (not (is_option (string_of (property "purpose" claims)) "claim_grant"))
        invalid_grant _
        (Keeping-bind _ _ (Keeping-need (string_of (property "claim_id" claims)) invalid_grant)
          λ id.
            Keeping-guard (not (is_option (string_of (property "identity_id" claims)) v.claims.sub))
              invalid_grant _ (Keeping-pure id))

  pub authorize_claim-Keeping :
      (v : VerifiedJwt) (claim : ClaimRecord) → Moves Keeping (authorize_claim d v claim)
  unfolding authorize_claim
  authorize_claim-Keeping v claim =
      Keeping-guard (not (claim.identity_id == v.claims.sub)) invalid_grant _ (
        Keeping-bind (require_active_identity d claim.identity_id) _
          (active-Keeping claim.identity_id) λ identity. record { at = Keeping-refl })

  pub narrow-Keeping :
      (request : TokenExchangeRequest) (a : ExchangeAuthorization)
      → Moves Keeping (narrow d request a)
  unfolding narrow
  narrow-Keeping request a =
      let scopes = requested_scopes request.scope a.allowed_scopes in
      Keeping-guard (not (scopes_within scopes a.allowed_scopes)) invalid_scope _ (
        Keeping-bind _ _
          (Keeping-need
            (chosen_resource d request.resource
              (get_or a.resource (get_or a.identity.resource d.default_resource)))
            invalid_target)
          λ resource.
            Keeping-guard
              (not (resource_matches d a.identity resource)
                || resource_differs d a.resource resource)
              invalid_target _ (Keeping-pure (scopes, resource)))

  pub issue_token-Keeping :
      (identity : ServiceIdentity) (scopes : List String) (resource : String)
      → Moves Keeping (issue_token d identity scopes resource)
  unfolding issue_token agent_now claim_now agent_identifier next_identifier
  issue_token-Keeping identity scopes resource = record { at = λ s. record { claims = refl } }
