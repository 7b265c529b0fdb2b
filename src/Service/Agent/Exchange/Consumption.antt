-- ===== src/Service/Agent/Exchange/Consumption.antt =====
-- packages/service/src/service.ts: the consumption of a claim by `exchangeToken`.
use warden_md.Common.{
  Option-cases, Result, ok, ◌>>=◌, bind-eq-ok, bind-run, String, ◌≡◌, refl, sym, ap, ◌∙◌, inl, inr,
  false, some, arith,
}
use warden_md.Common.Map
use warden_md.Common.Map.{Map}
use warden_md.Service.Errors.{OauthErrorCode}
use warden_md.Service.Types.{ClaimRecord}
use warden_md.Service.Jose.{JwtClaims, VerifiedJwt}
use warden_md.Service.Jose.Verify.{OpenedJwt, decode_jwt}
use warden_md.Service.Json.{property, string_of}
use warden_md.Service.Claim.{Ceremony, find_claim_by_id, require_claim}
use warden_md.Service.Claim.Operations.{consume_found, consume_approved_claim}
use warden_md.Service.Claim.Ticks.{consume_approved_claim-Later}
use warden_md.Service.Agent.{AgentDeps, Agent, S, in_ceremony, own_keys, verify_jwt, token_endpoint}
use warden_md.Service.Agent.Quiet.{Same-refl, Same-trans, IsVerified, Quiet-verify}
use warden_md.Service.Agent.Exchange.{ExchangeAuthorization, claim_id_of, authorize_claim}
use warden_md.Service.Agent.Exchange.Authorized.{IsActive, claim_id_of-Quiet, authorize_claim-Quiet}
use warden_md.Service.Agent.Exchange.Once.{
  verify-Keeping, claim_id_of-Keeping, authorize_claim-Keeping,
}

-- A text that takes apart to claims that name a claim.
pub record Names (d : AgentDeps) (grant : String) (id : String) : Type 0 where
  pub opened : OpenedJwt
  pub decoded : decode_jwt d.jose grant ≡ some opened
  pub names : string_of (property "claim_id" opened.claims.all_claims) ≡ some id

-- The consumption that a successful exchange of a claim grant went through: the grant verifies with a
-- key of the service's own and names a claim, which the ceremony had and which was consumed.
pub record Consumed (d : AgentDeps) (grant : String) (s t : Agent) : Type 0 where
  pub jwt : VerifiedJwt
  pub verified :
      IsVerified d s
        (own_keys d)
        (record { issuer = d.issuer; audience = token_endpoint d })
        grant
        jwt
  pub id : String
  pub named : Names d grant id
  pub claim : ClaimRecord
  pub used : ClaimRecord
  pub at : Ceremony
  pub before : at.claims ≡ s.ceremony.claims
  pub found : Map.get id at.claims ≡ some claim
  pub granted : (consume_found d.claim claim at).0 ≡ ok used
  pub after : t.ceremony.claims ≡ (consume_found d.claim claim at).1.claims

pub Consumed-then :
    (d : AgentDeps) (grant : String) (s u t : Agent)
    → Consumed d grant s u
    → t.ceremony.claims ≡ u.ceremony.claims
    → Consumed d grant s t
Consumed-then d grant s u t c same = record {
  jwt = c.jwt;
  verified = c.verified;
  id = c.id;
  named = c.named;
  claim = c.claim;
  used = c.used;
  at = c.at;
  before = c.before;
  found = c.found;
  granted = c.granted;
  after = same ∙ c.after;
}

module _ (d : AgentDeps) where
  consume-cases :
      (id : String) (u : Ceremony) {used : ClaimRecord}
      → (consume_approved_claim d.claim id u).0 ≡ ok used
      → (claim : ClaimRecord) × (Map.get id u.claims ≡ some claim)
        × ((consume_found d.claim claim u).0 ≡ ok used)
        × ((consume_approved_claim d.claim id u).1 ≡ (consume_found d.claim claim u).1)
  unfolding consume_approved_claim require_claim find_claim_by_id
  consume-cases id u h = elim (Option-cases (Map.get id u.claims)) [
    | inl gone ↦ absurd (cc (rw gone at h))
    | inr (claim, found) ↦ (claim, found, rw found at h, rw found refl)
  ]

  abbrev pub verify_grant : String → S VerifiedJwt
  verify_grant grant =
      verify_jwt d (own_keys d) (record { issuer = d.issuer; audience = token_endpoint d }) false
        grant

  abbrev use_claim : VerifiedJwt → String → S ExchangeAuthorization
  use_claim v id = in_ceremony (consume_approved_claim d.claim id) >>= authorize_claim d v

  abbrev pub after_verify : VerifiedJwt → S ExchangeAuthorization
  after_verify v = claim_id_of d v >>= use_claim v

  -- The consumption, and what it lets the grant's holder do.
  pub verified-Consumed :
      (grant : String) (s : Agent) {a : ExchangeAuthorization}
      → ((verify_grant grant >>= after_verify) s).0 ≡ ok a
      → (c : Consumed d grant s ((verify_grant grant >>= after_verify) s).1) × IsActive d s
          c.used.identity_id a.identity
        × (a.allowed_scopes ≡ c.used.scopes)
        × (a.resource ≡ c.used.resource)
  verified-Consumed grant s {a} h =
      let (v, good, h1) = bind-eq-ok (verify_grant grant) after_verify s h in
      let s1 = (verify_grant grant s).1 in
      let (id, name, h2) = bind-eq-ok (claim_id_of d v) (use_claim v) s1 h1 in
      let s2 = (claim_id_of d v s1).1 in
      let (used, consumed, h3) =
        bind-eq-ok (in_ceremony (consume_approved_claim d.claim id)) (authorize_claim d v) s2 h2 in
      let (claim, found, granted, same) = consume-cases id s2.ceremony consumed in
      let w =
        (Quiet-verify d {s0 = s} (own_keys d)
            (record { issuer = d.issuer; audience = token_endpoint d }) false grant).at
          s v (Same-refl s) good in
      let s3 = (in_ceremony (consume_approved_claim d.claim id) s2).1 in
      let kept =
        Same-trans s s1 s2
          ((Quiet-verify d {s0 = s} (own_keys d)
              (record { issuer = d.issuer; audience = token_endpoint d }) false grant).moves
            s (Same-refl s))
          ((claim_id_of-Quiet d s v).moves s1 (
            (Quiet-verify d {s0 = s} (own_keys d)
                (record { issuer = d.issuer; audience = token_endpoint d }) false grant).moves
              s (Same-refl s))) in
      let allowed =
        (authorize_claim-Quiet d s v used).at s3 a
          (record {
            store = kept.store;
            later = omega (
              arith,
              kept.later,
              ((consume_approved_claim-Later d.claim id).at s2.ceremony).ticks,
            );
          })
          h3 in
      (
        record {
          jwt = v;
          verified = w;
          id = id;
          named = record {
            opened = w.opened;
            decoded = w.decoded;
            names =
                ap (λ (c : JwtClaims). string_of (property "claim_id" c.all_claims)) (sym w.claims)
                ∙ (claim_id_of-Quiet d s1 v).at s1 id (Same-refl s1) name;
          };
          claim = claim;
          used = used;
          at = s2.ceremony;
          before =
              ((claim_id_of-Keeping d v).at s1).claims
              ∙ ((verify-Keeping d (own_keys d)
                    (record { issuer = d.issuer; audience = token_endpoint d }) grant).at
                  s).claims;
          found = found;
          granted = granted;
          after =
              ap (λ (r : Result OauthErrorCode ExchangeAuthorization × Agent). r.1.ceremony.claims)
                (bind-run (verify_grant grant) after_verify s good
                  ∙ bind-run (claim_id_of d v) (use_claim v) s1 name
                  ∙ bind-run (in_ceremony (consume_approved_claim d.claim id)) (authorize_claim d v)
                      s2 consumed)
              ∙ ((authorize_claim-Keeping d v used).at
                  (in_ceremony (consume_approved_claim d.claim id) s2).1).claims
              ∙ ap (λ (c : Ceremony). c.claims) same;
        },
        allowed.0,
        allowed.1,
        allowed.2,
      )
