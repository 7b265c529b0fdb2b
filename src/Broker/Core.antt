-- ===== src/Broker/Core.antt =====
-- The `Broker` object of packages/broker/src/broker.ts: its configuration, its state and the small
-- methods that the others call.
use warden_md.Common.{
  leb, if◌then◌else◌, append, ok, Exec, pure, throw, lift, require, gets, throw_if, ◌>>=◌, ℕ, suc,
  ◌/◌, String, Bool, Option, none, some, List,
}
use warden_md.Common.Map.{Map}
use warden_md.Broker.Errors.{BrokerErrorCode, grant_expired, grant_not_found}
use warden_md.Broker.Types.{
  expired, PolicyDecision, GrantProposal, VerifiedAuthority, AuthorityQuery, Grant,
  CapabilityClaims, AuditType, Detail, PolicyDocument, DpopProof, same_status,
}
use warden_md.Broker.Store.{Store, get_grant, append_audit}
use warden_md.Broker.Crypto.{WebCrypto}
use warden_md.Broker.Crypto.Dpop.{verify_dpop_proof}
use warden_md.Broker.Crypto.Capability
use warden_md.Broker.Policy

-- What `new URL(text)` gives, with `none` where it throws.
pub record Url : Type 0 where
  pub protocol : String
  pub origin : String
  pub pathname : String
  pub search : String
  pub hash : String

pub record DeliverInput : Type 0 where
  pub grant_id : String
  pub target : String
  pub event_id : String

-- `BrokerOptions` with its defaults filled in, and the platform. Readings of the clock and of
-- `crypto.randomUUID` are streams; what an awaited service answers may depend on how many clock
-- readings came before.
pub record Deps : Type 0 where
  pub clock : ℕ → ℕ
  pub random_uuid : ℕ → String
  pub parse_url : String → Option Url
  pub to_upper_case : String → String
  pub crypto : WebCrypto
  pub key_id : String
  pub authority : ℕ → AuthorityQuery → Option VerifiedAuthority
  pub policy : PolicyDocument
  pub issuer : String
  pub revocation_targets : List String
  -- `none` where no transport is configured; a delivery gives a receipt or throws.
  pub revocation_transport : Option (ℕ → DeliverInput → Option String)
  pub retention_ms : ℕ
  pub max_ttl_seconds : ℕ

-- `ticks` and `drawn` count the readings of the clock and of the random identifiers.
pub record Broker : Type 0 where
  pub store : Store
  pub used_dpop_jtis : Map ℕ
  pub ticks : ℕ
  pub drawn : ℕ

abbrev pub M : Type 0 → Type 0
M A = Exec BrokerErrorCode Broker A

-- `${prefix}_${uuid}`
unfoldable pub prefixed : String → String → String
prefixed prefix uuid = append (append prefix "_") uuid

abbrev pub set_store : (Store → Store) → M (Unit {0})
set_store f s = (ok tt, record s { store = f s.store })

module _ (d : Deps) where
  -- `this.clock.now()`
  unfoldable pub now : M ℕ
  now s = (ok (d.clock s.ticks), record s { ticks = suc s.ticks })

  -- `randomId(prefix)`
  unfoldable pub random_id : String → M String
  random_id prefix s =
      (ok (prefixed prefix (d.random_uuid s.drawn)), record s { drawn = suc s.drawn })

  unfoldable pub audit : String → AuditType → Option Detail → M (Unit {0})
  audit grant_id type detail = do
    id ← random_id "audit"
    at ← now
    set_store (
        append_audit
          (record { id = id; grant_id = grant_id; type = type; at = at; detail = detail }))

  -- `if (grant.status === "expired" || grant.expiresAt <= this.clock.now())`: the clock is read only
  -- if the first test fails.
  unfoldable pub assert_not_expired : Grant → M (Unit {0})
  assert_not_expired grant =
      if same_status grant.status expired
      then throw grant_expired
      else do at ← now; throw_if (leb grant.expires_at at) grant_expired

  unfoldable pub resolve_authority : AuthorityQuery → M (Option VerifiedAuthority)
  resolve_authority query s = (ok (d.authority s.ticks query), s)

  unfoldable pub decide : GrantProposal → M PolicyDecision
  decide proposal s =
      let (found, ticks) = Policy.decide d.policy proposal d.clock s.ticks in
      (ok found.decision, record s { ticks = ticks })

  -- `grants.get(grantId)` under the lock of the grant; a missing grant makes `mutateGrant` return
  -- `undefined`, over which every caller throws `grant_not_found`.
  unfoldable pub load_grant : String → M Grant
  load_grant grant_id = do
    found ← gets (λ s. get_grant grant_id s.store)
    require found grant_not_found

  unfoldable pub check_dpop : DpopProof → String → M (Unit {0})
  check_dpop proof thumbprint = do
    at ← now
    λ s.
        let (result, seen) =
          verify_dpop_proof d.crypto d.to_upper_case proof thumbprint at s.used_dpop_jtis in
        (result, record s { used_dpop_jtis = seen })

  unfoldable pub verify_credential : String → Bool → M CapabilityClaims
  verify_credential credential allow_expired = do
    at ← now
    lift (Capability.verify d.crypto d.key_id credential at allow_expired)

  unfoldable pub issued_or_now : Option ℕ → M ℕ
  issued_or_now none = now
  issued_or_now (some at) = pure at

  unfoldable pub mint : Grant → M String
  unfolding issued_or_now
  mint grant = do
    issued_at ← issued_or_now grant.issued_at
    jti ← random_id "credential"
    pure (
        Capability.sign d.crypto d.key_id (record {
          iss = d.issuer;
          jti = jti;
          grant_id = grant.id;
          sub = grant.subject_id;
          aud = grant.audience;
          action = grant.action;
          scope = grant.granted_scope;
          jkt = some grant.dpop_thumbprint;
          use_count = 1;
          iat = issued_at / 1000;
          exp = some (grant.expires_at / 1000);
        }))
