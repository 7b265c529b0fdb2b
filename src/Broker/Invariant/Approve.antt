-- ===== src/Broker/Invariant/Approve.antt =====
-- `approve` keeps the invariant.
use warden_md.Common.{
  Bool-cases, is_some, Keeps, Keeps-bind_of, bind_at, String, ◌≡◌, refl, ap, ◌∙◌, inl, inr, true,
  false, some, arith, eq_iff,
}
use warden_md.Common.Map
use warden_md.Common.Map.{Map, get-set}
use warden_md.Broker.Types.{proposed, Grant}
use warden_md.Broker.Store.{held_by_other, put_grant, reserve_subject_token}
use warden_md.Broker.Core.{Deps, Broker, now}
use warden_md.Broker.Approve.{check_approve, reserve, approved_grant, commit_approve, approve}
use warden_md.Broker.Invariant.{grant_at, holder_of, Good}
use warden_md.Broker.Invariant.Writes.{SameLedger-Good, Quiet-Keeps}
use warden_md.Broker.Invariant.Updates.{Update-Good}
use warden_md.Broker.Invariant.Guards.{check_approve-eq-ok}
use warden_md.Broker.Ledger.Checks.{check_approve-Quiet, announce_approval-Quiet}

module _ (d : Deps) (s0 : Broker) where
  -- A reservation that was not refused leaves every other reservation as it is.
  pub holders-reserve :
      (s : Broker) (g : Grant)
      → Good d s0 s
      → held_by_other (holder_of g.subject_token_id s) g.id ≡ false
      → (j : String) (h : Grant) → grant_at j s ≡ some h
      → is_some h.issued_at ≡ true
      → Map.get h.subject_token_id (Map.set g.subject_token_id g.id s.store.subject_token_grant)
        ≡ some j
  unfolding held_by_other
  holders-reserve s g good free j h at issued =
      let held = good.formed.holds j h at issued in
      let name = good.formed.named j h at in
      rw get-set (
        ground
          (arith, held, name, free, eq_iff g.subject_token_id h.subject_token_id, eq_iff j g.id))

  commit_approve-Good :
      (k approver : String) (s : Broker) (g : Grant)
      → grant_at k s ≡ some g
      → g.status ≡ proposed
      → Good d s0 s
      → Good d s0 (commit_approve d k approver g s).1
  unfolding commit_approve reserve reserve_subject_token now put_grant approved_grant
  commit_approve-Good k approver s g found was good =
      elim (Bool-cases (held_by_other (holder_of g.subject_token_id s) g.id)) [
        | inl e ↦ rw e good
        | inr e ↦ rw e (
            Update-Good d s0 s _ k g (approved_grant d g approver (d.clock s.ticks))
              (record {
                found = found;
                wrote = refl;
                drawn = omega arith;
                develops = record { terms_kept = refl; status_moved = rw was refl };
                issued = λ _. refl;
                holders = holders-reserve s g good e;
                holds = λ _. rw get-set (
                    ground (
                      arith,
                      good.formed.keyed k g found,
                      eq_iff g.subject_token_id g.subject_token_id,
                    ));
                closed = λ j. ground (arith, eq_iff k j, good.formed.closed k g found, was);
              })
              good)
      ]

  pub approve-Keeps : (k approver : String) → Keeps (Good d s0) (approve d k approver)
  unfolding approve
  approve-Keeps k approver =
      Keeps-bind_of (Good d s0) (check_approve d k) _ (Quiet-Keeps d s0 _ (check_approve-Quiet d k))
        λ g s e good.
          let q = (check_approve-Quiet d k).at s in
          let (found, was) = check_approve-eq-ok d k s e in
          bind_at (Good d s0) (commit_approve d k approver g) _ (check_approve d k s).1
            (commit_approve-Good k approver (check_approve d k s).1 g
              (ap (λ m. Map.get k m) q.grants ∙ found) was (SameLedger-Good d s0 s _ q good))
            λ changed t good'. (Quiet-Keeps d s0 _ (announce_approval-Quiet d changed)).at t good'
