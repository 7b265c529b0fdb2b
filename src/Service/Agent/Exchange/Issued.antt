-- ===== src/Service/Agent/Exchange/Issued.antt =====
-- packages/service/src/service.ts: the token that `exchangeToken` stores and signs.
use warden_md.Common.{
  Bool-cases, Option-cases, get_or, ok, ◌>>=◌, bind-eq-ok, bind-run, ◌+◌, ◌*◌, String, ◌≡◌, refl,
  sym, ap, ◌∙◌, subst, ◌⊎◌, inl, inr, true, false, not, ◌||◌, none, some, List, arith, ◌==◌,
}
use warden_md.Service.Store.{ServiceStore, create_token, first}
use warden_md.Service.Claim.{claim_now, next_identifier}
use warden_md.Service.Agent.Quiet.{
  Same, Same-refl, Same-trans, Quiet, Quiet-pure, Quiet-guard, Quiet-need,
}
use warden_md.Service.Errors.{invalid_scope, invalid_target}
use warden_md.Service.Types.{IssuedToken}
use warden_md.Service.Agent.{
  AgentDeps, Agent, given, integer_seconds, scopes_within, requested_scopes, agent_now,
  agent_identifier, resource_matches,
}
use warden_md.Service.Agent.Scopes.{Matches, resource_matches-Matches}
use warden_md.Service.Agent.Claims.{chosen_resource}
use warden_md.Service.Agent.Exchange.{
  TokenExchangeRequest, TokenExchangeResult, ExchangeAuthorization, jwt_bearer_grant,
  claim_grant_type, join_spaces, claim_authorization, identity_for_exchange, resource_differs,
  narrow, new_token, issue_token, exchange_token,
}
use warden_md.Service.Agent.Exchange.Authorized.{
  IsActive, OfAssertion, bearer_authorization-OfAssertion, identity_for_exchange-Quiet,
}
use warden_md.Service.Agent.Exchange.Once.{narrow-Keeping, issue_token-Keeping}
use warden_md.Service.Agent.Exchange.Consumption.{
  Consumed, verify_grant, after_verify, verified-Consumed,
}

module _ (d : AgentDeps) where
  Narrowed : ExchangeAuthorization → List String × String → Type 0
  Narrowed a (scopes, resource) =
      (scopes_within scopes a.allowed_scopes ≡ true)
      × Matches d a.identity resource
      × (resource_differs d a.resource resource ≡ false)

  narrow-Narrowed :
      {s0 : Agent} (request : TokenExchangeRequest) (a : ExchangeAuthorization)
      → Quiet s0 (Narrowed a) (narrow d request a)
  unfolding narrow Narrowed
  narrow-Narrowed request a =
      let Q = Narrowed a in
      let scopes = requested_scopes request.scope a.allowed_scopes in
      Quiet-guard Q (not (scopes_within scopes a.allowed_scopes)) invalid_scope _ λ within.
        Quiet-need Q
          (chosen_resource d request.resource
            (get_or a.resource (get_or a.identity.resource d.default_resource)))
          invalid_target _
          λ resource _.
            Quiet-guard Q
              (not (resource_matches d a.identity resource)
                || resource_differs d a.resource resource)
              invalid_target _
              λ fits.
                Quiet-pure Q (scopes, resource)
                  (
                    ground (arith, within),
                    resource_matches-Matches d a.identity resource (ground (arith, fits)),
                    ground (arith, fits),
                  )

  -- What a claim grant allows that the request carries: it verifies with a key of the service's own
  -- and names a claim that the ceremony had and that was consumed; the identity is the claim's, stored
  -- and active, and the scopes and the resource are the claim's.
  pub record OfClaim (request : TokenExchangeRequest) (s t : Agent) (a : ExchangeAuthorization)
      : Type 0 where
    pub grant : String
    pub presented : given request.claim_grant ≡ some grant
    pub consumption : Consumed d grant s t
    pub active : IsActive d s consumption.used.identity_id a.identity
    pub scopes : a.allowed_scopes ≡ consumption.used.scopes
    pub resource : a.resource ≡ consumption.used.resource

  -- On what authority a request is granted: by its grant type.
  abbrev pub Allowed : TokenExchangeRequest → Agent → Agent → ExchangeAuthorization → Type 0
  Allowed request s t a =
      (((request.grant_type == claim_grant_type) ≡ true) × OfClaim request s t a)
      ⊎ (((request.grant_type == jwt_bearer_grant) ≡ true) × OfAssertion d s request a)

  identity_for_exchange-Allowed :
      (request : TokenExchangeRequest) (s : Agent) {a : ExchangeAuthorization}
      → (identity_for_exchange d request s).0 ≡ ok a
      → Allowed request s (identity_for_exchange d request s).1 a
  unfolding identity_for_exchange claim_authorization
  identity_for_exchange-Allowed request s {a} h =
      elim (Bool-cases (request.grant_type == claim_grant_type)) [
        | inl claiming ↦ elim (Option-cases (given request.claim_grant)) [
          | inl absent ↦ absurd (cc (rw (claiming, absent) at h))
          | inr (grant, told) ↦
              let (c, active, scopes, resource) =
                verified-Consumed d grant s (rw (claiming, told) at h) in
              let run : (identity_for_exchange d request s).1
                  ≡ ((verify_grant d grant >>= after_verify d) s).1 =
                rw (identity_for_exchange, claiming, told) refl in
              let left : OfClaim request s ((verify_grant d grant >>= after_verify d) s).1 a =
                record {
                  grant = grant;
                  presented = told;
                  consumption = c;
                  active = active;
                  scopes = scopes;
                  resource = resource;
                } in
              inl (claiming, subst (λ t. OfClaim request s t a) (sym run) left)
        ]
        | inr other ↦ elim (Bool-cases (request.grant_type == jwt_bearer_grant)) [
          | inl asserting ↦ inr (
            asserting,
            (bearer_authorization-OfAssertion d s request).at s a (Same-refl s)
                (rw (other, asserting) at h),
          )
          | inr neither ↦ absurd (cc (rw (other, neither) at h))
        ]
      ]

  Allowed-then :
      (request : TokenExchangeRequest) (s u t : Agent) (a : ExchangeAuthorization)
      → t.ceremony.claims ≡ u.ceremony.claims
      → Allowed request s u a
      → Allowed request s t a
  Allowed-then request s u t a same (inl (kind, c)) = inl (
    kind,
    record {
      grant = c.grant;
      presented = c.presented;
      consumption = record {
        jwt = c.consumption.jwt;
        verified = c.consumption.verified;
        id = c.consumption.id;
        named = c.consumption.named;
        claim = c.consumption.claim;
        used = c.consumption.used;
        at = c.consumption.at;
        before = c.consumption.before;
        found = c.consumption.found;
        granted = c.consumption.granted;
        after = same ∙ c.consumption.after;
      };
      active = c.active;
      scopes = c.scopes;
      resource = c.resource;
    },
  )
  Allowed-then request s u t a same (inr asserted) = inr asserted

  -- What an exchange that returns has issued.
  pub record IsIssued (request : TokenExchangeRequest) (s t : Agent) (result : TokenExchangeResult)
      : Type 0 where
    pub authorization : ExchangeAuthorization
    pub allowed : Allowed request s t authorization
    pub token : IssuedToken
    pub stored : t.store ≡ create_token token (record s.store { replays = t.store.replays })
    pub owner : token.identity_id ≡ authorization.identity.id
    pub unrevoked : token.revoked_at ≡ none
    pub lifetime : token.expires_at ≡ token.issued_at + d.token_expires_in_seconds * 1000
    pub within : scopes_within token.scopes authorization.allowed_scopes ≡ true
    pub fitting : Matches d authorization.identity token.resource
    pub target : resource_differs d authorization.resource token.resource ≡ false
    pub answer :
        (result.scope ≡ join_spaces token.scopes)
        × (result.resource ≡ token.resource)
        × (result.expires_in ≡ d.token_expires_in_seconds)

  issue_token-IsIssued :
      (request : TokenExchangeRequest) (a : ExchangeAuthorization) (n : List String × String)
      (s t : Agent) {result : TokenExchangeResult}
      → Allowed request s (issue_token d a.identity n.0 n.1 t).1 a
      → Narrowed a n
      → Same s t
      → (issue_token d a.identity n.0 n.1 t).0 ≡ ok result
      → IsIssued request s (issue_token d a.identity n.0 n.1 t).1 result
  unfolding issue_token Narrowed new_token create_token agent_now claim_now agent_identifier
      next_identifier
  issue_token-IsIssued request a (scopes, resource) s t {result} allowed (within, matches, target)
        kept h =
      let now = integer_seconds (d.claim.clock t.ceremony.ticks) in
      let token =
        new_token d a.identity scopes resource now (d.claim.next t.ceremony.drawn "token") in
      record {
        authorization = a;
        allowed = allowed;
        token = token;
        stored = ap (λ (x : ServiceStore). create_token token x) kept.store;
        owner = refl;
        unrevoked = refl;
        lifetime = omega arith;
        within = within;
        fitting = matches;
        target = target;
        answer = (cc h, cc h, cc h);
      }

  -- A token is only issued to an identity that is stored, not revoked and not expired, on the
  -- authority of an assertion of the trusted issuer, for an identity of that type, its subject, its
  -- client and scopes that it has, or of a grant of the service's own for a claim that was there and
  -- is consumed, for the identity, the scopes and the resource of the claim. The token's scopes are
  -- among the authorized ones, its resource is one of the service's and the one of the identity and of
  -- the authorization where these have one, and it is the only thing that is stored, apart from replay
  -- marks.
  pub exchange_token-IsIssued :
      (request : TokenExchangeRequest) (s : Agent) {result : TokenExchangeResult}
      → (exchange_token d request s).0 ≡ ok result
      → IsIssued request s (exchange_token d request s).1 result
  unfolding exchange_token
  exchange_token-IsIssued request s {result} h =
      let (a, first, rest) = bind-eq-ok (identity_for_exchange d request) _ s h in
      settle a first rest
    where
      found : Agent
      found = (identity_for_exchange d request s).1

      settle :
          (a : ExchangeAuthorization)
          → (identity_for_exchange d request s).0 ≡ ok a
          → ((narrow d request a >>= λ n. issue_token d a.identity n.0 n.1) found).0 ≡ ok result
          → IsIssued request s (exchange_token d request s).1 result
      settle a first rest =
          let (n, second, last) = bind-eq-ok (narrow d request a) _ found rest in
          let narrowed = (narrow d request a found).1 in
          let kept = (identity_for_exchange-Quiet d s request).moves s (Same-refl s) in
          let fits = narrow-Narrowed {s0 = s} request a in
          let run : exchange_token d request s ≡ issue_token d a.identity n.0 n.1 narrowed =
            bind-run (identity_for_exchange d request) _ s first
            ∙ bind-run (narrow d request a) _ found second in
          let claims : (issue_token d a.identity n.0 n.1 narrowed).1.ceremony.claims
              ≡ found.ceremony.claims =
            ((issue_token-Keeping d a.identity n.0 n.1).at narrowed).claims
            ∙ ((narrow-Keeping d request a).at found).claims in
          subst (λ r. IsIssued request s r.1 result) (sym run)
            (issue_token-IsIssued request a n s narrowed
              (Allowed-then request s found (issue_token d a.identity n.0 n.1 narrowed).1 a claims
                (identity_for_exchange-Allowed request s first))
              (fits.at found n kept second)
              (Same-trans s found narrowed kept (fits.moves found kept)) last)
