-- ===== src/Service/Claim/Transition.antt =====
-- What `transition` does: it writes over exactly the version that was read.
use warden_md.Common.{
  Bool-cases, ok, is_ok, ◌≡◌, refl, sym, ap, ◌∙◌, subst, ◌⊎◌, inl, inr, true, false, Option, none,
  some, arith, ◌==◌, eq_iff,
}
use warden_md.Common.Map
use warden_md.Common.Map.{Map, get-set}
use warden_md.Service.Types.{ClaimRecord}
use warden_md.Service.Claim.{
  Ceremony, with_version, find_claim_by_id, may_replace, compare_and_set, transition,
}
use warden_md.Service.Claim.Follows.{Follows, Follows-refl, Advances, Advances-refl, Known}

-- The state after a write of a claim.
abbrev pub written : ClaimRecord → Ceremony → Ceremony
written next s = record s { claims = Map.set next.id next s.claims }

may_replace-eq_true :
    (stored : Option ClaimRecord) (previous next : ClaimRecord)
    → may_replace stored previous next ≡ true
    → (c : ClaimRecord) × (stored ≡ some c) × (c.version ≡ previous.version)
unfolding may_replace
may_replace-eq_true none previous next h = cc
may_replace-eq_true (some c) previous next h = (c, refl, ground (arith, h))

module _ (c : ClaimRecord) (changes : ClaimRecord → ClaimRecord) (s : Ceremony) where
  -- Either the record itself was in the store and has been replaced, or the store is as it was and
  -- the caller gets an error.
  pub transition-cases :
      Known c s
      → ((Map.get c.id s.claims ≡ some c)
          × (transition c changes s
              ≡ (ok (with_version c changes), written (with_version c changes) s)))
        ⊎ ((is_ok (transition c changes s).0 ≡ false) × ((transition c changes s).1 ≡ s))
  unfolding transition compare_and_set find_claim_by_id
  transition-cases k =
      elim (Bool-cases (may_replace (Map.get c.id s.claims) c (with_version c changes))) [
        | inl swapped ↦ inl (current swapped, rw swapped refl)
        | inr kept ↦ inr (rw kept refl, rw kept refl)
      ]
    where
      current :
          may_replace (Map.get c.id s.claims) c (with_version c changes) ≡ true
          → Map.get c.id s.claims ≡ some c
      current swapped =
          let (found, e, v) =
            may_replace-eq_true (Map.get c.id s.claims) c (with_version c changes) swapped in
          let one : k.stored ≡ found = cc (k.there, e) in
          k.there ∙ ap some (sym (k.follows.same (sym v ∙ ap (λ x. x.version) (sym one))))

  written-Advances :
      Map.get c.id s.claims ≡ some c
      → Follows c (with_version c changes)
      → Advances s (written (with_version c changes) s)
  written-Advances here f = record {
    grows = record {
      claims = λ k old h. elim (Bool-cases ((with_version c changes).id == k)) [
        | inl hit ↦ (
          with_version c changes,
          rw (get-set (with_version c changes).id k (with_version c changes) s.claims, hit) refl,
          let one : c ≡ old = cc (h, here, f.id, (eq_iff (with_version c changes).id k).0 hit) in
              subst (λ x. Follows x (with_version c changes)) one f,
        )
        | inr miss ↦ (
          old,
          rw (get-set (with_version c changes).id k (with_version c changes) s.claims, miss) h,
          Follows-refl old,
        )
      ];
    };
    keys = λ k h. elim (Bool-cases ((with_version c changes).id == k)) [
      | inl hit ↦ absurd (cc (here, f.id, (eq_iff (with_version c changes).id k).0 hit, h))
      | inr miss ↦
          rw (get-set (with_version c changes).id k (with_version c changes) s.claims, miss) h
    ];
    drawn = refl;
  }

  pub transition-Advances :
      Known c s → Follows c (with_version c changes) → Advances s (transition c changes s).1
  transition-Advances k f = elim (transition-cases k) [
    | inl (here, e) ↦ rw e (written-Advances here f)
    | inr (failed, e) ↦ rw e (Advances-refl s)
  ]
