-- ===== src/Broker/Invariant/Finalize.antt =====
-- Closing a grant keeps the invariant, in every way in which it is closed.
use warden_md.Common.{
  Bool-cases, Option-cases, get_or, gets, Keeps, Keeps-bind_of, bind_at, String, ◌≡◌, refl, ◌∙◌,
  inl, inr, true, false, some, arith,
}
use warden_md.Common.Map
use warden_md.Common.Map.{Map, get-set, set-set}
use warden_md.Broker.Types.{GrantStatus, denied, CompletionSource, Grant, same_status}
use warden_md.Broker.Store.{
  put_grant, append_audit, set_evidence, evidence_for, deliveries_for, add_deliveries,
}
use warden_md.Broker.Core.{Deps, Broker, now, random_id, audit, load_grant}
use warden_md.Broker.Finalize.{
  FinalStatus, as_revoked, as_expired, status_of, deliver_pending, open_deliveries, closed_grant,
  with_evidence, close_grant, prepare_evidence, finalize,
}
use warden_md.Broker.Ledger.{Quiet-gets, Quiet-bind, load_grant-Quiet}
use warden_md.Broker.Invariant.{is_closed, is_active, may_become, grant_at, has_evidence, Good}
use warden_md.Broker.Invariant.Writes.{Quiet-Keeps}
use warden_md.Broker.Invariant.Updates.{Update-Good}
use warden_md.Broker.Invariant.Guards.{load_grant-eq-ok, state-load_grant}
use warden_md.Broker.Ledger.Deliveries.{deliver_pending-Quiet}

may_close :
    (a : GrantStatus) (f : FinalStatus)
    → is_closed a ≡ false
    → same_status a denied ≡ false
    → may_become a (status_of f) ≡ true
may_close a f open_still allowed = ground arith

inactive_closed : (f : FinalStatus) → is_active (status_of f) ≡ false
inactive_closed as_revoked = refl
inactive_closed as_expired = refl

closed_closed : (f : FinalStatus) → is_closed (status_of f) ≡ true
closed_closed as_revoked = refl
closed_closed as_expired = refl

module _ (d : Deps) (s0 : Broker) where
  close_grant-Good :
      (k : String) (cause : CompletionSource) (f : FinalStatus) (g : Grant) (s : Broker)
      → grant_at k s ≡ some g
      → has_evidence k s ≡ false
      → same_status g.status denied ≡ false
      → Good d s0 s
      → Good d s0 (close_grant d k cause f g s).1
  unfolding close_grant now put_grant closed_grant with_evidence audit random_id append_audit
      open_deliveries add_deliveries set_evidence
  close_grant-Good k cause f g s found bare allowed good =
      let same : g.id ≡ k = good.formed.keyed k g found in
      let open_still : is_closed g.status ≡ false = good.formed.closed k g found ∙ bare in
      Update-Good d s0 s _ k g _
        (record {
          found = found;
          wrote = set-set k _ _ s.store.grants;
          drawn = omega arith;
          develops = record {
            terms_kept = refl;
            status_moved = may_close g.status f open_still allowed;
          };
          issued = λ e. cc (inactive_closed f);
          holders = good.formed.holds;
          holds = good.formed.holds k g found;
          closed = λ j. rw get-set (ground (arith, same, closed_closed f));
        })
        good

  prepare_evidence-Good :
      (k : String) (cause : CompletionSource) (f : FinalStatus) (g : Grant) (s : Broker)
      → grant_at k s ≡ some g
      → Good d s0 s
      → Good d s0 (prepare_evidence d k cause f g s).1
  unfolding prepare_evidence evidence_for
  prepare_evidence-Good k cause f g s found good =
      elim (Option-cases (Map.get g.id s.store.evidence)) [
        | inr (evidence, e) ↦ rw e good
        | inl e ↦ elim (Bool-cases (same_status g.status denied)) [
          | inl was ↦ rw (e, was) good
          | inr allowed ↦
              rw (e, allowed)
                (close_grant-Good k cause f g s found (rw (← good.formed.keyed k g found, e) refl)
                  allowed good)
        ]
      ]

  pub finalize-Keeps :
      (k : String) (cause : CompletionSource) (f : FinalStatus)
      → Keeps (Good d s0) (finalize d k cause f)
  unfolding finalize
  finalize-Keeps k cause f =
      Keeps-bind_of (Good d s0) (load_grant d k) _ (Quiet-Keeps d s0 _ (load_grant-Quiet d k))
        λ g s e good. rw (state-load_grant d k s) (
          bind_at (Good d s0) (prepare_evidence d k cause f g) _ s
            (prepare_evidence-Good k cause f g s (load_grant-eq-ok d k s e) good)
            λ prepared t good'.
              (Quiet-Keeps d s0 _ (
                  Quiet-bind (gets (λ u. deliveries_for k u.store)) _ (Quiet-gets _) λ records.
                    Quiet-bind (deliver_pending d k records) _ (deliver_pending-Quiet d k records)
                      (λ _. Quiet-gets (λ u. get_or (evidence_for k u.store) prepared)))).at
                t good')
