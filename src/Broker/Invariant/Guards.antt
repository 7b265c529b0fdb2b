-- ===== src/Broker/Invariant/Guards.antt =====
-- What a success of the guards says.
use warden_md.Common.{ok, Result-cases, suc, ◌<◌, String, ◌≡◌, inl, inr, true, some, arith, eq_iff}
use warden_md.Broker.Types.{proposed, approved, Grant, CapabilityClaims}
use warden_md.Broker.Store.{get_grant}
use warden_md.Broker.Core.{
  Deps, Broker, now, assert_not_expired, load_grant, check_dpop, verify_credential,
}
use warden_md.Broker.Approve.{check_approve}
use warden_md.Broker.Consume.{ConsumeInput, proof_action, check_use, check_consume}
use warden_md.Broker.Crypto.Capability
use warden_md.Broker.Crypto.Dpop.{verify_dpop_proof}
use warden_md.Broker.Invariant.{grant_at}

module _ (d : Deps) where
  pub load_grant-eq-ok :
      (k : String) (s : Broker) {g : Grant} → (load_grant d k s).0 ≡ ok g → grant_at k s ≡ some g
  unfolding load_grant get_grant
  load_grant-eq-ok k s h = ground arith

  pub state-load_grant : (k : String) (s : Broker) → (load_grant d k s).1 ≡ s
  unfolding load_grant get_grant
  state-load_grant k s = ground arith

  pub check_approve-eq-ok :
      (k : String) (s : Broker) {g : Grant}
      → (check_approve d k s).0 ≡ ok g
      → (grant_at k s ≡ some g) × (g.status ≡ proposed)
  unfolding check_approve load_grant get_grant assert_not_expired now
  check_approve-eq-ok k s h = ground arith

  pub check_use-eq-ok :
      (input : ConsumeInput) (claims : CapabilityClaims) (g : Grant)
      → check_use d input claims g ≡ ok tt
      → (g.status ≡ approved)
        × (input.audience ≡ g.audience)
        × (claims.aud ≡ g.audience)
        × (claims.action ≡ g.action)
        × (proof_action d input.proof g ≡ ok g.action)
  unfolding check_use
  check_use-eq-ok input claims g h = elim (Result-cases (proof_action d input.proof g)) [
    | inl (action, e) ↦
        rw (e, check_use)
          (ground (
            arith,
            e,
            eq_iff input.audience g.audience,
            eq_iff claims.aud g.audience,
            eq_iff action g.action,
            eq_iff claims.action g.action,
          ))
    | inr (code, e) ↦ absurd (ground (arith, e))
  ]

  pub check_consume-eq-ok :
      (input : ConsumeInput) (s : Broker) {claims : CapabilityClaims} {g : Grant}
      → (check_consume d input s).0 ≡ ok (claims, g)
      → (Capability.verify d.crypto d.key_id input.credential (d.clock s.ticks) true ≡ ok claims)
        × (grant_at claims.grant_id s ≡ some g)
        × (d.clock (suc s.ticks) < g.expires_at)
        × (check_use d input claims g ≡ ok tt)
        × ((verify_dpop_proof d.crypto d.to_upper_case input.proof g.dpop_thumbprint
              (d.clock (suc (suc s.ticks)))
              s.used_dpop_jtis).0
            ≡ ok tt)
  unfolding check_consume verify_credential load_grant get_grant assert_not_expired now check_dpop
  check_consume-eq-ok input s h = ground arith
