-- ===== src/Service/Agent/Tokens/Validity.antt =====
-- packages/service/src/service.ts: which tokens `validateAccessToken` accepts, and what `revoke`
-- does to them.
use warden_md.Common.{
  leb, leb→lt, is_some, get_or, Result, ok, err, pure, gets, Moves, ℕ, ◌≤◌, ◌<◌, String, ◌≡◌, refl,
  sym, ap, false, ◌||◌, Option, none, some, arith,
}
use warden_md.Service.Errors.{OauthErrorCode, invalid_target, invalid_token}
use warden_md.Service.Types.{IssuedToken}
use warden_md.Service.Store.{ServiceStore, find_token_by_id}
use warden_md.Service.Jose.{JwtClaims, VerifiedJwt}
use warden_md.Service.Jose.Verify.{Expected}
use warden_md.Service.Agent.Still.{
  Still, Still-refl, Still-bind, Still-need, Still-guard, verify-Still,
}
use warden_md.Service.Agent.{AgentDeps, Agent, agent_now, configured_resource, own_keys, verify_jwt}
use warden_md.Service.Agent.Quiet.{
  Same-refl, Quiet, Quiet-pure, Quiet-throw, Quiet-gets, Quiet-guard, Quiet-bind, Quiet-need,
  IsVerified, Quiet-reading, Quiet-verify,
}
use warden_md.Service.Agent.Tokens.{
  rethrow_as, catch_as, differs_from_stored, check_stored, validate_access_token,
}

module _ (d : AgentDeps) where
  -- A token text that is accepted at a state for a resource, with the token that is stored for it.
  pub record IsAccepted (s : Agent) (token : String) (expected : Option String)
      (stored : IssuedToken) : Type 0 where
    pub resource : String
    pub configured : configured_resource d (get_or expected d.default_resource) ≡ some resource
    pub jwt : VerifiedJwt
    pub verified :
        IsVerified d s (own_keys d) (record { issuer = d.issuer; audience = resource }) token jwt
    pub found : find_token_by_id jwt.claims.jti s.store ≡ some stored
    pub unrevoked : stored.revoked_at ≡ none
    pub tick : ℕ
    pub since : s.ceremony.ticks ≤ tick
    pub unexpired : d.claim.clock tick < stored.expires_at
    pub same : differs_from_stored stored jwt.claims resource ≡ false

  Passes : Agent → String → VerifiedJwt → IssuedToken → Type 0
  Passes s0 resource jwt stored =
      (find_token_by_id jwt.claims.jti s0.store ≡ some stored)
      × (stored.revoked_at ≡ none)
      × ((tick : ℕ) × (s0.ceremony.ticks ≤ tick) × (d.claim.clock tick < stored.expires_at))
      × (differs_from_stored stored jwt.claims resource ≡ false)

  check_stored-Passes :
      {s0 : Agent} (resource : String) (jwt : VerifiedJwt) (o : Option IssuedToken)
      → find_token_by_id jwt.claims.jti s0.store ≡ o
      → Quiet s0 (Passes s0 resource jwt) (check_stored d o jwt.claims resource)
  unfolding check_stored Passes
  check_stored-Passes {s0} resource jwt none found =
      Quiet-throw (Passes s0 resource jwt) invalid_token
  check_stored-Passes {s0} resource jwt (some stored) found =
      let Q = Passes s0 resource jwt in
      Quiet-guard Q (is_some stored.revoked_at) invalid_token _ λ live.
        Quiet-bind Q (agent_now d) _ _ (Quiet-reading d) λ at reading.
          Quiet-guard Q (leb stored.expires_at at || differs_from_stored stored jwt.claims resource)
            invalid_token _
            λ fits. Quiet-pure Q stored (
              found,
              grind (arith, live),
              (
                reading.0,
                reading.1,
                rw (sym reading.2) (leb→lt stored.expires_at at (ground (arith, fits))),
              ),
              ground (arith, fits),
            )

  verify-catch :
      {s0 : Agent} (expected : Expected) (token : String)
      → Quiet s0
          (IsVerified d s0 (own_keys d) expected token)
          (catch_as invalid_token (verify_jwt d (own_keys d) expected false token))
  verify-catch {s0} expected token = record {
    at = λ s a r h. inner.at s a r (kept (verify_jwt d (own_keys d) expected false token s).0 h);
    moves = λ s r. inner.moves s r;
  }
    where
      inner :
          Quiet s0
            (IsVerified d s0 (own_keys d) expected token)
            (verify_jwt d (own_keys d) expected false token)
      inner = Quiet-verify d (own_keys d) expected false token

      kept :
          {a : VerifiedJwt} (r : Result OauthErrorCode VerifiedJwt)
          → rethrow_as invalid_token r ≡ ok a
          → r ≡ ok a
      kept (ok b) h = h
      kept (err e) h = absurd (cc h)

  check_stored-Still :
      (o : Option IssuedToken) (claims : JwtClaims) (resource : String)
      → Moves Still (check_stored d o claims resource)
  unfolding check_stored agent_now
  check_stored-Still none claims resource = record { at = Still-refl }
  check_stored-Still (some stored) claims resource =
      Still-guard (is_some stored.revoked_at) invalid_token _ (
        Still-bind (agent_now d) _ (record { at = λ s. record { store = refl } })
          λ at.
            Still-guard (leb stored.expires_at at || differs_from_stored stored claims resource)
              invalid_token (pure stored) (record { at = Still-refl }))

  validate-Still :
      (token : String) (expected : Option String)
      → Moves Still (validate_access_token d token expected)
  unfolding validate_access_token
  validate-Still token expected =
      Still-bind _ _
        (Still-need (configured_resource d (get_or expected d.default_resource)) invalid_target)
        λ resource.
          let wanted : Expected = record { issuer = d.issuer; audience = resource } in
          Still-bind (catch_as invalid_token (verify_jwt d (own_keys d) wanted false token)) _
            (record { at = (verify-Still d (own_keys d) wanted token).at })
            λ jwt.
              Still-bind (gets (λ s. find_token_by_id jwt.claims.jti s.store)) _
                (record { at = Still-refl }) λ o. check_stored-Still o jwt.claims resource

  -- A token is accepted only for a configured resource, with claims that verify and a signature by a
  -- key of the service's own, and only if the store has it under its identifier, not revoked and not
  -- expired, for the same resource, subject, identity and scopes as its claims say. The store stays
  -- as it was.
  pub validate_access_token-IsAccepted :
      (token : String) (expected : Option String) (s : Agent) {stored : IssuedToken}
      → (validate_access_token d token expected s).0 ≡ ok stored
      → IsAccepted s token expected stored
        × ((validate_access_token d token expected s).1.store ≡ s.store)
  unfolding validate_access_token Passes find_token_by_id
  validate_access_token-IsAccepted token expected s {stored} h =
      (whole.at s stored (Same-refl s) h, ((validate-Still token expected).at s).store)
    where
      whole : Quiet s (IsAccepted s token expected) (validate_access_token d token expected)
      whole =
          let Q = IsAccepted s token expected in
          Quiet-need Q (configured_resource d (get_or expected d.default_resource)) invalid_target _
            λ resource configured.
              let wanted : Expected = record { issuer = d.issuer; audience = resource } in
              Quiet-bind Q (catch_as invalid_token (verify_jwt d (own_keys d) wanted false token)) _
                _ (verify-catch wanted token)
                λ jwt verified.
                  let find = find_token_by_id jwt.claims.jti in
                  Quiet-bind Q (gets (λ s. find s.store)) _ (λ o. find s.store ≡ o)
                    (Quiet-gets (λ o. find s.store ≡ o) (λ s. find s.store)
                      λ u r.
                        sym (ap (λ (x : ServiceStore). find_token_by_id jwt.claims.jti x) r.store))
                    λ o there.
                      let inner = check_stored-Passes resource jwt o there in
                      record {
                        at = λ u a r h.
                            let (found, live, (tick, since, early), same) = inner.at u a r h in
                            record {
                              resource = resource;
                              configured = configured;
                              jwt = jwt;
                              verified = verified;
                              found = found;
                              unrevoked = live;
                              tick = tick;
                              since = since;
                              unexpired = early;
                              same = same;
                            };
                        moves = λ u r. inner.moves u r;
                      }
