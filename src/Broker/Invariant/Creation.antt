-- ===== src/Broker/Invariant/Creation.antt =====
-- What the creation of a grant needs in order to keep the invariant.
use warden_md.Common.{
  truthy, is_some, ℕ, ◌≤◌, String, ◌≡◌, sym, ap, ◌∙◌, subst, ◌≢◌, inl, inr, true, false, none, some,
  arith,
}
use warden_md.Common.Map
use warden_md.Common.Map.{Map}
use warden_md.Broker.Types.{Grant}
use warden_md.Broker.Core.{Deps, Broker}
use warden_md.Broker.Invariant.{
  is_closed, is_active, grant_at, holder_of, has_evidence, grant_name, Good,
}
use warden_md.Broker.Invariant.Writes.{write_cases, write_none, write_other}

-- A grant stored under an identifier that was not in use.
pub record Creation (d : Deps) (g : Grant) (s t : Broker) : Type 0 where
  pub absent : grant_at g.id s ≡ none
  pub named : truthy g.id ≡ true
  pub wrote : t.store.grants ≡ Map.set g.id g s.store.grants
  pub drawn : s.drawn ≤ t.drawn
  pub issued : is_active g.status ≡ true → is_some g.issued_at ≡ true
  pub holders :
      (j : String) (h : Grant)
      → grant_at j s ≡ some h
      → is_some h.issued_at ≡ true
      → holder_of h.subject_token_id t ≡ some j
  pub holds : is_some g.issued_at ≡ true → holder_of g.subject_token_id t ≡ some g.id
  pub closed : is_closed g.status ≡ false
  pub evidence : (j : String) → has_evidence j t ≡ has_evidence j s
  pub taken : (n : ℕ) → t.drawn ≤ n → g.id ≢ grant_name d n

module _ (d : Deps) (s0 s t : Broker) (g : Grant) (c : Creation d g s t) (good : Good d s0 s) where
  creation-closed :
      (j : String) (h : Grant) → grant_at j t ≡ some h → is_closed h.status ≡ has_evidence j t
  creation-closed j h e = elim (write_cases g.id g s t c.wrote j e) [
    | inl (p, q) ↦
        rw (← q, ← p) (c.closed ∙ sym (c.evidence g.id ∙ good.formed.no_orphan g.id c.absent))
    | inr (p, q) ↦ good.formed.closed j h q ∙ sym (c.evidence j)
  ]

  creation-holds :
      (j : String) (h : Grant)
      → grant_at j t ≡ some h
      → is_some h.issued_at ≡ true
      → holder_of h.subject_token_id t ≡ some j
  creation-holds j h e a = elim (write_cases g.id g s t c.wrote j e) [
    | inl (p, q) ↦
        rw (← q, ← p) (c.holds (subst (λ (x : Grant). is_some x.issued_at ≡ true) (sym q) a))
    | inr (p, q) ↦ c.holders j h q a
  ]

  creation-issued :
      (j : String) (h : Grant)
      → grant_at j t ≡ some h
      → is_active h.status ≡ true
      → is_some h.issued_at ≡ true
  creation-issued j h e a = elim (write_cases g.id g s t c.wrote j e) [
    | inl (p, q) ↦ rw (← q) (c.issued (rw (← q) at a))
    | inr (p, q) ↦ good.formed.issued j h q a
  ]

  -- The creation keeps the invariant and the development.
  pub Creation-Good : Good d s0 t
  Creation-Good = record {
    formed = record {
      keyed = λ j h e. elim (write_cases g.id g s t c.wrote j e) [
        | inl (p, q) ↦ rw (← q) p
        | inr (p, q) ↦ good.formed.keyed j h q
      ];
      named = λ j h e. elim (write_cases g.id g s t c.wrote j e) [
        | inl (p, q) ↦ rw (← p) c.named
        | inr (p, q) ↦ good.formed.named j h q
      ];
      issued = creation-issued;
      holds = creation-holds;
      closed = creation-closed;
      no_orphan =
          λ j e. c.evidence j ∙ good.formed.no_orphan j (write_none g.id g s t c.wrote j e).1;
      unused = λ n h.
          write_other g.id g s t c.wrote (grant_name d n) (c.taken n h)
            (good.formed.unused n (omega (arith, c.drawn)));
    };
    evolved = record {
      later = λ j h e.
          let (i, at, dev) = good.evolved.later j h e in
          (
            i,
            write_other g.id g s t c.wrote j (λ p. cc (c.absent, at, ap (λ x. grant_at x s) p)) at,
            dev,
          );
    };
  }
