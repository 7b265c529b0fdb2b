-- ===== src/Service/ClaimState/Expiry.antt =====
-- packages/service/src/repository.ts: what `removeExpiredClaims` leaves, and when the object wakes.
use Prim.Native.Nat.{min}
use warden_md.Common.{
  if◌then◌else◌, Bool-cases, Option-cases, get_or, filter, includes, All, ℕ, ◌≤◌, String, ◌≡◌, refl,
  sym, ap, ◌∙◌, subst, inl, inr, Bool, true, none, some, List, [], ◌∷◌, map, arith, ◌==◌, eq_iff,
  eq_refl,
}
use warden_md.Common.Map
use warden_md.Common.Map.{Map, get-delete}
use warden_md.Service.Types.{ClaimRecord}
use warden_md.Service.ClaimState.{ClaimState, active_claims, id_of, delete_each, earliest}

-- Claims are stored under their identifiers, each of them is listed as active, and the alarm is set
-- no later than the first expiry.
pub record IsScheduled (s : ClaimState) : Type 0 where
  pub keyed : (k : String) (c : ClaimRecord) → Map.get k s.claims ≡ some c → c.id ≡ k
  pub active :
      (k : String) (c : ClaimRecord)
      → Map.get k s.claims ≡ some c
      → includes (get_or s.active_claim_ids []) k ≡ true
  pub early :
      (k : String) (c : ClaimRecord)
      → Map.get k s.claims ≡ some c
      → (n : ℕ) × (s.next_expiry ≡ some n) × (n ≤ c.expires_at)
  pub alarmed : s.alarm ≡ s.next_expiry
  pub idle : get_or s.active_claim_ids [] ≡ [] → s.next_expiry ≡ none

pub get-delete_each :
    {V : Type 0} (keys : List String) (j : String) (m : Map V)
    → Map.get j (delete_each keys m) ≡ (if includes keys j then none else Map.get j m)
unfolding delete_each
get-delete_each [] j m = refl
get-delete_each (key ∷ keys) j m =
    ground (arith, get-delete_each keys j (Map.delete key m), get-delete key j m)

module _ (claims : Map ClaimRecord)
    (keyed : (k : String) (c : ClaimRecord) → Map.get k claims ≡ some c → c.id ≡ k)
    (p : ClaimRecord → Bool) where
  -- A listed claim that passes the test is in the filtered list, under its identifier.
  pub listed :
      (ids : List String) (k : String) (c : ClaimRecord)
      → includes ids k ≡ true
      → Map.get k claims ≡ some c
      → p c ≡ true
      → includes (map id_of (filter p (active_claims claims ids))) k ≡ true
  unfolding active_claims
  listed [] k c there found passes = cc there
  listed (id ∷ ids) k c there found passes = elim (Bool-cases (id == k)) [
    | inl same ↦
        let one : id ≡ k = (eq_iff id k).0 same in
        let here : Map.get id claims ≡ some c = rw one found in
        rw (here, passes) (rw (keyed k c found, eq_refl k) refl)
    | inr apart ↦
        let later = listed ids k c (ground (arith, there, apart)) found passes in
        elim (Option-cases (Map.get id claims)) [
          | inl gone ↦ rw gone later
          | inr (other, here) ↦ elim (Bool-cases (p other)) [
            | inl good ↦ rw (here, good) (ground (arith, later))
            | inr bad ↦ rw (here, bad) later
          ]
        ]
  ]

  -- What the filtered list names passes the test.
  pub passed :
      (ids : List String) (k : String) (c : ClaimRecord)
      → includes (map id_of (filter p (active_claims claims ids))) k ≡ true
      → Map.get k claims ≡ some c
      → p c ≡ true
  unfolding active_claims
  passed [] k c there found = cc there
  passed (id ∷ ids) k c there found = elim (Option-cases (Map.get id claims)) [
    | inl gone ↦ passed ids k c (rw gone at there) found
    | inr (other, here) ↦ elim (Bool-cases (p other)) [
      | inr bad ↦ passed ids k c (rw (here, bad) at there) found
      | inl good ↦ elim (Bool-cases (other.id == k)) [
        | inl same ↦
            let one : other.id ≡ k = (eq_iff other.id k).0 same in
            let two : some other ≡ some c =
              sym here ∙ ap (λ j. Map.get j claims) (sym (keyed id other here) ∙ one) ∙ found in
            let three : other ≡ c = cc two in subst (λ x. p x ≡ true) three good
        | inr apart ↦ passed ids k c (ground (arith, rw (here, good) at there, apart)) found
      ]
    ]
  ]

  pub listed-All :
      (Q : ClaimRecord → Type 0) (ids : List String) (k : String) (c : ClaimRecord)
      → All Q (filter p (active_claims claims ids))
      → includes ids k ≡ true
      → Map.get k claims ≡ some c
      → p c ≡ true
      → Q c
  unfolding active_claims
  listed-All Q [] k c every there found passes = cc there
  listed-All Q (id ∷ ids) k c every there found passes = elim (Bool-cases (id == k)) [
    | inl same ↦
        let one : id ≡ k = (eq_iff id k).0 same in
        let here : Map.get id claims ≡ some c = rw one found in (rw (here, passes) at every).0
    | inr apart ↦
        let next : includes ids k ≡ true = ground (arith, there, apart) in
        elim (Option-cases (Map.get id claims)) [
          | inl gone ↦ listed-All Q ids k c (rw gone at every) next found passes
          | inr (other, here) ↦ elim (Bool-cases (p other)) [
            | inl good ↦ listed-All Q ids k c (rw (here, good) at every).1 next found passes
            | inr bad ↦ listed-All Q ids k c (rw (here, bad) at every) next found passes
          ]
        ]
  ]

All-le :
    (m n : ℕ) (cs : List ClaimRecord)
    → m ≤ n
    → All (λ c. n ≤ c.expires_at) cs
    → All (λ c. m ≤ c.expires_at) cs
All-le m n [] low every = tt
All-le m n (c ∷ cs) low (first, rest) = (omega (arith, low, first), All-le m n cs low rest)

pub All-earliest :
    (claim : ClaimRecord) (rest : List ClaimRecord)
    → All (λ c. earliest claim rest ≤ c.expires_at) (claim ∷ rest)
unfolding earliest
All-earliest claim [] = (omega arith, tt)
All-earliest claim (other ∷ rest) = (
  omega arith,
  All-le (min claim.expires_at (earliest other rest)) (earliest other rest) (other ∷ rest)
      (omega arith) (All-earliest other rest),
)
