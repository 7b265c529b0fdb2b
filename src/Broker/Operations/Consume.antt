-- ===== src/Broker/Operations/Consume.antt =====
-- When `consume` succeeds, and with what.
use warden_md.Common.{
  ok, bind-eq-ok, suc, ◌<◌, ◌≡◌, refl, ap, ◌∙◌, ◌↔◌, true, none, some, arith, eq_iff,
}
use warden_md.Broker.Types.{approved, Grant, CapabilityClaims, ConsumeResult}
use warden_md.Broker.Store.{get_grant}
use warden_md.Broker.Core.{
  Deps, Broker, now, random_id, audit, assert_not_expired, load_grant, check_dpop,
  verify_credential,
}
use warden_md.Broker.Consume.{
  ConsumeInput, proof_action, check_use, check_consume, consumed_grant, commit_consume, consume,
}
use warden_md.Broker.Crypto.Dpop.{verify_dpop_proof}
use warden_md.Broker.Invariant.{grant_at}
use warden_md.Broker.Invariant.Guards.{check_use-eq-ok, check_consume-eq-ok}
use warden_md.Broker.Crypto.Capability

-- Everything that a consume must pass: the credential verifies even if it is past its own expiry,
-- the grant that it names is there, is approved and alive at the next clock reading, audience and
-- action of request, credential and grant agree, and the DPoP proof verifies for the grant's key.
pub record MayConsume (d : Deps) (input : ConsumeInput) (s : Broker) (claims : CapabilityClaims)
    (g : Grant) : Type 0 where
  pub verified :
      Capability.verify d.crypto d.key_id input.credential (d.clock s.ticks) true ≡ ok claims
  pub found : grant_at claims.grant_id s ≡ some g
  pub alive : d.clock (suc s.ticks) < g.expires_at
  pub was_approved : g.status ≡ approved
  pub audience : input.audience ≡ g.audience
  pub credential_audience : claims.aud ≡ g.audience
  pub credential_action : claims.action ≡ g.action
  pub request_action : proof_action d input.proof g ≡ ok g.action
  pub proved :
      (verify_dpop_proof d.crypto d.to_upper_case input.proof g.dpop_thumbprint
        (d.clock (suc (suc s.ticks)))
        s.used_dpop_jtis).0
      ≡ ok tt

module _ (d : Deps) where
  pub consumed_now : Grant → Broker → Grant
  consumed_now g s = consumed_grant d g (d.clock (suc (suc (suc s.ticks))))

  check_consume-MayConsume :
      (input : ConsumeInput) (s : Broker) {claims : CapabilityClaims} {g : Grant}
      → (check_consume d input s).0 ≡ ok (claims, g)
      → MayConsume d input s claims g
  check_consume-MayConsume input s {claims} {g} h =
      let facts = check_consume-eq-ok d input s h in
      let agree = check_use-eq-ok d input claims g facts.3 in
      record {
        verified = facts.0;
        found = facts.1;
        alive = facts.2;
        was_approved = agree.0;
        audience = agree.1;
        credential_audience = agree.2;
        credential_action = agree.3;
        request_action = agree.4;
        proved = facts.4;
      }

  check_use-of_agreement :
      (input : ConsumeInput) (s : Broker) (claims : CapabilityClaims) (g : Grant)
      → MayConsume d input s claims g
      → check_use d input claims g ≡ ok tt
  unfolding check_use
  check_use-of_agreement input s claims g m =
      rw (m.request_action, check_use)
        (ground (
          arith,
          m.was_approved,
          m.audience,
          m.credential_audience,
          m.credential_action,
          eq_iff input.audience g.audience,
          eq_iff claims.aud g.audience,
          eq_iff g.action g.action,
          eq_iff claims.action g.action,
        ))

  check_consume-of_MayConsume :
      (input : ConsumeInput) (s : Broker) (claims : CapabilityClaims) (g : Grant)
      → MayConsume d input s claims g
      → (check_consume d input s).0 ≡ ok (claims, g)
  unfolding check_consume verify_credential load_grant get_grant assert_not_expired now check_dpop
  check_consume-of_MayConsume input s claims g m =
      let usable = check_use-of_agreement input s claims g m in
      ground (arith, m.verified, m.found, m.alive, m.was_approved, usable, m.proved)

  ticks-check_consume :
      (input : ConsumeInput) (s : Broker) (claims : CapabilityClaims) (g : Grant)
      → MayConsume d input s claims g
      → (check_consume d input s).1.ticks ≡ suc (suc (suc s.ticks))
  unfolding check_consume verify_credential load_grant get_grant assert_not_expired now check_dpop
  ticks-check_consume input s claims g m =
      let usable = check_use-of_agreement input s claims g m in
      ground (arith, m.verified, m.found, m.alive, m.was_approved, usable, m.proved)

  result-commit_consume :
      (claims : CapabilityClaims) (g : Grant) (s : Broker)
      → (commit_consume d (claims, g) s).0
        ≡ ok (record { grant = consumed_grant d g (d.clock s.ticks); evidence = none })
  unfolding commit_consume now audit random_id
  result-commit_consume claims g s = refl

  -- `consume` returns a result exactly when there are claims and a grant that may be consumed; the
  -- result is then that grant with the status "consumed" and the time of the fourth clock reading.
  pub consume_iff :
      (input : ConsumeInput) (s : Broker) (r : ConsumeResult)
      → ((consume d input s).0 ≡ ok r) ↔ (
          (claims : CapabilityClaims) × (g : Grant) × MayConsume d input s claims g
          × (r ≡ record { grant = consumed_now g s; evidence = none }))
  unfolding consume consumed_now
  consume_iff input s r = (forth, back)
    where
      result_of :
          (claims : CapabilityClaims) (g : Grant)
          → MayConsume d input s claims g
          → (commit_consume d (claims, g) (check_consume d input s).1).0
            ≡ ok (record { grant = consumed_now g s; evidence = none })
      result_of claims g m =
          result-commit_consume claims g (check_consume d input s).1
          ∙ ap (λ n. ok (record { grant = consumed_grant d g (d.clock n); evidence = none }))
              (ticks-check_consume input s claims g m)

      split :
          (checked : CapabilityClaims × Grant)
          → (check_consume d input s).0 ≡ ok checked
          → (commit_consume d checked (check_consume d input s).1).0 ≡ ok r
          → (claims : CapabilityClaims) × (g : Grant) × MayConsume d input s claims g
            × (r ≡ record { grant = consumed_now g s; evidence = none })
      split (claims, g) e done =
          let m = check_consume-MayConsume input s e in
          (claims, g, m, cc (done, result_of claims g m))

      forth :
          (consume d input s).0 ≡ ok r
          → (claims : CapabilityClaims) × (g : Grant) × MayConsume d input s claims g
            × (r ≡ record { grant = consumed_now g s; evidence = none })
      forth h =
          let (checked, e, done) = bind-eq-ok (check_consume d input) (commit_consume d) s h in
          split checked e done

      back :
          ((claims : CapabilityClaims) × (g : Grant) × MayConsume d input s claims g
            × (r ≡ record { grant = consumed_now g s; evidence = none }))
          → (consume d input s).0 ≡ ok r
      back (claims, g, m, e) =
          rw (check_consume-of_MayConsume input s claims g m, e) (result_of claims g m)
