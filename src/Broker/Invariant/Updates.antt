-- ===== src/Broker/Invariant/Updates.antt =====
-- What a write to one grant, and the creation of one, need in order to keep the invariant.
use warden_md.Common.{
  if◌then◌else◌, Bool-cases, truthy, is_some, ℕ, ◌≤◌, String, ◌≡◌, sym, ap, ◌∙◌, subst, inl, inr,
  true, false, none, some, arith, ◌==◌, eq_iff,
}
use warden_md.Common.Map
use warden_md.Common.Map.{Map}
use warden_md.Broker.Types.{Grant}
use warden_md.Broker.Core.{Deps, Broker}
use warden_md.Broker.Invariant.{
  is_closed, is_active, grant_at, holder_of, has_evidence, grant_name, Develops, Develops-trans,
  Good,
}
use warden_md.Broker.Invariant.Writes.{write_cases, write_none, write_other, write_self}

-- A write to the grant under `k`, with what else the operation changed.
pub record Update (d : Deps) (k : String) (g g' : Grant) (s t : Broker) : Type 0 where
  pub found : grant_at k s ≡ some g
  pub wrote : t.store.grants ≡ Map.set k g' s.store.grants
  pub drawn : s.drawn ≤ t.drawn
  pub develops : Develops g g'
  pub issued : is_active g'.status ≡ true → is_some g'.issued_at ≡ true
  pub holders :
      (j : String) (h : Grant)
      → grant_at j s ≡ some h
      → is_some h.issued_at ≡ true
      → holder_of h.subject_token_id t ≡ some j
  pub holds : is_some g'.issued_at ≡ true → holder_of g'.subject_token_id t ≡ some k
  pub closed :
      (j : String) → has_evidence j t ≡ (if k == j then is_closed g'.status else has_evidence j s)

module _ (d : Deps) (s0 s t : Broker) (k : String) (g g' : Grant) (u : Update d k g g' s t)
    (good : Good d s0 s) where
  same_id : g'.id ≡ k
  same_id = ap (λ (x : Grant). x.id) u.develops.terms_kept ∙ good.formed.keyed k g u.found

  update-keyed : (j : String) (h : Grant) → grant_at j t ≡ some h → h.id ≡ j
  update-keyed j h e = elim (write_cases k g' s t u.wrote j e) [
    | inl (p, q) ↦ ap (λ (x : Grant). x.id) (sym q) ∙ same_id ∙ p
    | inr (p, q) ↦ good.formed.keyed j h q
  ]

  update-named : (j : String) (h : Grant) → grant_at j t ≡ some h → truthy j ≡ true
  update-named j h e = elim (write_cases k g' s t u.wrote j e) [
    | inl (p, q) ↦ rw (← p) (good.formed.named k g u.found)
    | inr (p, q) ↦ good.formed.named j h q
  ]

  update-issued :
      (j : String) (h : Grant)
      → grant_at j t ≡ some h
      → is_active h.status ≡ true
      → is_some h.issued_at ≡ true
  update-issued j h e a = elim (write_cases k g' s t u.wrote j e) [
    | inl (p, q) ↦ rw (← q) (u.issued (rw (← q) at a))
    | inr (p, q) ↦ good.formed.issued j h q a
  ]

  update-holds :
      (j : String) (h : Grant)
      → grant_at j t ≡ some h
      → is_some h.issued_at ≡ true
      → holder_of h.subject_token_id t ≡ some j
  update-holds j h e a = elim (write_cases k g' s t u.wrote j e) [
    | inl (p, q) ↦
        rw (← q, ← p) (u.holds (subst (λ (x : Grant). is_some x.issued_at ≡ true) (sym q) a))
    | inr (p, q) ↦ u.holders j h q a
  ]

  update-closed :
      (j : String) (h : Grant) → grant_at j t ≡ some h → is_closed h.status ≡ has_evidence j t
  update-closed j h e = elim (write_cases k g' s t u.wrote j e) [
    | inl (p, q) ↦ ground (arith, u.closed j, eq_iff k j)
    | inr (p, q) ↦ ground (arith, u.closed j, eq_iff k j, good.formed.closed j h q)
  ]

  update-no_orphan : (j : String) → grant_at j t ≡ none → has_evidence j t ≡ false
  update-no_orphan j e =
      let (p, q) = write_none k g' s t u.wrote j e in
      ground (arith, u.closed j, eq_iff k j, good.formed.no_orphan j q)

  update-unused : (n : ℕ) → t.drawn ≤ n → grant_at (grant_name d n) t ≡ none
  update-unused n h =
      let free = good.formed.unused n (omega (arith, u.drawn)) in
      write_other k g' s t u.wrote (grant_name d n)
        (λ p. cc (u.found, free, ap (λ j. grant_at j s) p)) free

  update-later :
      (j : String) (h : Grant)
      → grant_at j s0 ≡ some h
      → (i : Grant) × (grant_at j t ≡ some i) × Develops h i
  update-later j h e =
      let (i, at, dev) = good.evolved.later j h e in
      elim (Bool-cases (k == j)) [
        | inl same ↦
            let p = (eq_iff k j).0 same in
            let q : i ≡ g = cc (at, u.found, ap (λ x. grant_at x s) p) in
            (
              g',
              rw (← p) (write_self k g' s t u.wrote),
              Develops-trans h g g' (subst (λ x. Develops h x) q dev) u.develops,
            )
        | inr other ↦ (i, write_other k g' s t u.wrote j (λ p. cc ((eq_iff k j).1 p)) at, dev)
      ]

  -- The update keeps the invariant and the development.
  pub Update-Good : Good d s0 t
  Update-Good = record {
    formed = record {
      keyed = update-keyed;
      named = update-named;
      issued = update-issued;
      holds = update-holds;
      closed = update-closed;
      no_orphan = update-no_orphan;
      unused = update-unused;
    };
    evolved = record { later = update-later };
  }
