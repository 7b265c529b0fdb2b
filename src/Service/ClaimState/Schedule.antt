-- ===== src/Service/ClaimState/Schedule.antt =====
-- packages/service/src/repository.ts: the alarm of the object that owns a claim, kept by every method
-- of `DurableObjectClaimState`.
use warden_md.Common.{
  if◌then◌else◌, Bool-cases, Option-cases, get_or, filter, includes, All, ℕ, ◌≤◌, String, ◌≡◌, refl,
  sym, ap, ◌∙◌, subst, inl, inr, true, false, not, Option, none, some, List, [], ◌∷◌, map, arith,
}
use warden_md.Common.Map
use warden_md.Common.Map.{Map}
use warden_md.Service.Types.{ClaimRecord}
use warden_md.Service.ClaimState.{
  ClaimState, active_claims, is_over, id_of, earliest, delete_expired, reschedule, remove_from,
  remove_expired_claims,
}
use warden_md.Service.ClaimState.Expiry.{
  IsScheduled, get-delete_each, listed, passed, listed-All, All-earliest,
}

-- The claim that is left at a time.
abbrev pub unexpired : ℕ → Option ClaimRecord → Option ClaimRecord
unexpired now none = none
unexpired now (some c) = if is_over now c then none else some c

reschedule-IsScheduled :
    (l : List ClaimRecord) (s : ClaimState)
    → ((k : String) (c : ClaimRecord) → Map.get k s.claims ≡ some c → c.id ≡ k)
    → ((k : String) (c : ClaimRecord)
        → Map.get k s.claims ≡ some c
        → includes (map id_of l) k ≡ true)
    → ((n : ℕ) (k : String) (c : ClaimRecord)
        → All (λ x. n ≤ x.expires_at) l
        → Map.get k s.claims ≡ some c
        → n ≤ c.expires_at)
    → IsScheduled (reschedule l s)
unfolding reschedule
reschedule-IsScheduled [] s keyed named late = record {
  keyed = keyed;
  active = λ k c found. absurd (cc (named k c found));
  early = λ k c found. absurd (cc (named k c found));
  alarmed = refl;
  idle = λ e. refl;
}
reschedule-IsScheduled (claim ∷ rest) s keyed named late = record {
  keyed = keyed;
  active = named;
  early = λ k c found.
      (earliest claim rest, refl, late (earliest claim rest) k c (All-earliest claim rest) found);
  alarmed = refl;
  idle = λ e. absurd (cc e);
}

claims-reschedule : (l : List ClaimRecord) (s : ClaimState) → (reschedule l s).claims ≡ s.claims
unfolding reschedule
claims-reschedule [] s = refl
claims-reschedule (claim ∷ rest) s = refl

module _ (now : ℕ) (s : ClaimState) (before : IsScheduled s) (ids : List String)
    (active : get_or s.active_claim_ids [] ≡ ids) where
  over : List ClaimRecord
  over = filter (is_over now) (active_claims s.claims ids)

  remaining : List ClaimRecord
  remaining = filter (λ claim. not (is_over now claim)) (active_claims s.claims ids)

  named : (k : String) (c : ClaimRecord) → Map.get k s.claims ≡ some c → includes ids k ≡ true
  named k c found = rw active at before.active k c found

  get-over :
      (k : String) → Map.get k (delete_expired over s).claims ≡ unexpired now (Map.get k s.claims)
  unfolding over
  get-over k =
      get-delete_each (map id_of over) k s.claims ∙ (elim (Option-cases (Map.get k s.claims)) [
        | inl gone ↦ rw gone (ground arith)
        | inr (c, found) ↦ elim (Bool-cases (is_over now c)) [
          | inl late ↦
              rw
                (
                  listed s.claims before.keyed (is_over now) ids k c (named k c found) found late,
                  found,
                  late,
                )
                refl
          | inr alive ↦ elim (Bool-cases (includes (map id_of over) k)) [
            | inl there ↦
                absurd (cc (passed s.claims before.keyed (is_over now) ids k c there found, alive))
            | inr apart ↦ rw (apart, found, alive) refl
          ]
        ]
      ])

  left :
      (k : String) (c : ClaimRecord)
      → Map.get k (delete_expired over s).claims ≡ some c
      → (Map.get k s.claims ≡ some c) × (is_over now c ≡ false)
  left k c found = elim (Option-cases (Map.get k s.claims)) [
    | inl gone ↦ absurd (cc (rw gone at (get-over k), found))
    | inr (d, there) ↦ elim (Bool-cases (is_over now d)) [
      | inl late ↦ absurd (cc (rw (there, late) at (get-over k), found))
      | inr alive ↦
          let same : d ≡ c = cc (rw (there, alive) at (get-over k), found) in
          (there ∙ ap some same, subst (λ x. is_over now x ≡ false) same alive)
    ]
  ]

  kept-IsScheduled : IsScheduled (reschedule remaining (delete_expired over s))
  unfolding remaining
  kept-IsScheduled =
      reschedule-IsScheduled remaining (delete_expired over s)
        (λ k c found. before.keyed k c (left k c found).0)
        (λ k c found.
          let (there, alive) = left k c found in
          listed s.claims before.keyed (λ x. not (is_over now x)) ids k c (named k c there) there
            (rw alive refl))
        (λ n k c every found.
          let (there, alive) = left k c found in
          listed-All s.claims before.keyed (λ x. not (is_over now x)) (λ x. n ≤ x.expires_at) ids k
            c every (named k c there) there (rw alive refl))

-- `removeExpiredClaims` removes exactly the claims whose time has come, and leaves a state in which
-- the alarm is set no later than the first expiry of the claims that are left.
pub remove_expired_claims-IsScheduled :
    (now : ℕ) (s : ClaimState)
    → IsScheduled s
    → IsScheduled (remove_expired_claims now s).1
      × ((k : String)
          → Map.get k (remove_expired_claims now s).1.claims ≡ unexpired now (Map.get k s.claims))
unfolding remove_expired_claims over remaining
remove_expired_claims-IsScheduled now s before = go (get_or s.active_claim_ids []) refl
  where
    go :
        (ids : List String)
        → get_or s.active_claim_ids [] ≡ ids
        → IsScheduled (remove_from now ids s).1
          × ((k : String)
              → Map.get k (remove_from now ids s).1.claims ≡ unexpired now (Map.get k s.claims))
    go [] none_active = (
      record {
        keyed = before.keyed;
        active = λ k c found. absurd (cc (rw none_active at (before.active k c found)));
        early = λ k c found. absurd (cc (rw none_active at (before.active k c found)));
        alarmed = sym (before.idle none_active);
        idle = before.idle;
      },
      λ k. elim (Option-cases (Map.get k s.claims)) [
        | inl gone ↦ rw gone refl
        | inr (c, found) ↦ absurd (cc (rw none_active at (before.active k c found)))
      ],
    )
    go (id ∷ ids) active = (
      kept-IsScheduled now s before (id ∷ ids) active,
      λ k.
          ap (λ (m : Map ClaimRecord). Map.get k m)
            (claims-reschedule (remaining now s before (id ∷ ids) active)
              (delete_expired (over now s before (id ∷ ids) active) s))
          ∙ get-over now s before (id ∷ ids) active k,
    )
