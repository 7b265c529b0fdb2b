-- ===== src/Broker/Invariant/Consume.antt =====
-- `consume` keeps the invariant.
use warden_md.Common.{Keeps, Keeps-bind_of, ◌≡◌, refl, ap, ◌∙◌, some, arith, eq_iff}
use warden_md.Common.Map
use warden_md.Common.Map.{Map}
use warden_md.Broker.Types.{approved, Grant, CapabilityClaims}
use warden_md.Broker.Store.{put_grant, append_audit}
use warden_md.Broker.Core.{Deps, Broker, now, random_id, audit}
use warden_md.Broker.Consume.{ConsumeInput, check_consume, consumed_grant, commit_consume, consume}
use warden_md.Broker.Invariant.{grant_at, Good}
use warden_md.Broker.Invariant.Writes.{SameLedger-Good, Quiet-Keeps}
use warden_md.Broker.Invariant.Updates.{Update-Good}
use warden_md.Broker.Invariant.Guards.{check_use-eq-ok, check_consume-eq-ok}
use warden_md.Broker.Ledger.Checks.{check_consume-Quiet}

module _ (d : Deps) (s0 : Broker) where
  commit_consume-Good :
      (s : Broker) (claims : CapabilityClaims) (g : Grant)
      → grant_at claims.grant_id s ≡ some g
      → g.status ≡ approved
      → Good d s0 s
      → Good d s0 (commit_consume d (claims, g) s).1
  unfolding commit_consume now put_grant consumed_grant audit random_id append_audit
  commit_consume-Good s claims g found was good =
      Update-Good d s0 s _ claims.grant_id g (consumed_grant d g (d.clock s.ticks))
        (record {
          found = found;
          wrote = refl;
          drawn = omega arith;
          develops = record { terms_kept = refl; status_moved = rw was refl };
          issued = λ _. good.formed.issued claims.grant_id g found (rw was refl);
          holders = good.formed.holds;
          holds = good.formed.holds claims.grant_id g found;
          closed = λ j.
              ground
                (arith, eq_iff claims.grant_id j, good.formed.closed claims.grant_id g found, was);
        })
        good

  pub consume-Keeps : (input : ConsumeInput) → Keeps (Good d s0) (consume d input)
  unfolding consume
  consume-Keeps input =
      Keeps-bind_of (Good d s0) (check_consume d input) _
        (Quiet-Keeps d s0 _ (check_consume-Quiet d input))
        λ checked s e good.
          let (claims, g) = checked in
          let q = (check_consume-Quiet d input).at s in
          let (verified, found, alive, usable, proved) = check_consume-eq-ok d input s e in
          let was = (check_use-eq-ok d input claims g usable).0 in
          commit_consume-Good (check_consume d input s).1 claims g
            (ap (λ m. Map.get claims.grant_id m) q.grants ∙ found) was
            (SameLedger-Good d s0 s _ q good)
