-- ===== src/Service/Store/Due.antt =====
-- The deliveries that the service attempts next.
use warden_md.Common.{
  leb, leb→le, leb→lt, Bool-cases, length, filter, All, All-filter, ℕ, zero, suc, ◌≤◌, ◌≡◌, inl,
  inr, Bool, true, List, [], ◌∷◌, arith,
}
use warden_md.Common.Map
use warden_md.Service.Types.{EventDelivery}
use warden_md.Service.Store.{
  ServiceStore, insert_by, sort_by, slice_to, is_due, list_due_deliveries,
}

-- The keys of a list do not go down.
abbrev pub IsSorted : {A : Type 0} → (A → ℕ) → List A → Type 0
IsSorted key [] = Unit {0}
IsSorted key (a ∷ rest) = All (λ b. key a ≤ key b) rest × IsSorted key rest

pub All-map :
    {A : Type 0} {P Q : A → Type 0} (xs : List A) → ((a : A) → P a → Q a) → All P xs → All Q xs
All-map [] f h = tt
All-map (x ∷ xs) f (p, h) = (f x p, All-map xs f h)

module _ {A : Type 0} (key : A → ℕ) where
  All-insert_by :
      (P : A → Type 0) (a : A) (xs : List A) → P a → All P xs → All P (insert_by key a xs)
  unfolding insert_by
  All-insert_by P a [] p h = (p, tt)
  All-insert_by P a (x ∷ xs) p (q, h) = elim (Bool-cases (leb (key a) (key x))) [
    | inl low ↦ rw low (p, (q, h))
    | inr high ↦ rw high (q, All-insert_by P a xs p h)
  ]

  All-sort_by : (P : A → Type 0) (xs : List A) → All P xs → All P (sort_by key xs)
  unfolding sort_by
  All-sort_by P [] h = tt
  All-sort_by P (x ∷ xs) (p, h) = All-insert_by P x (sort_by key xs) p (All-sort_by P xs h)

  insert_by-IsSorted : (a : A) (xs : List A) → IsSorted key xs → IsSorted key (insert_by key a xs)
  unfolding insert_by
  insert_by-IsSorted a [] h = (tt, tt)
  insert_by-IsSorted a (x ∷ xs) (low, h) = elim (Bool-cases (leb (key a) (key x))) [
    | inl first_one ↦ rw first_one (
      (
        leb→le (key a) (key x) first_one,
        All-map xs (λ b p. omega (arith, p, leb→le (key a) (key x) first_one)) low,
      ),
      (low, h),
    )
    | inr second ↦ rw second (
      All-insert_by (λ b. key x ≤ key b) a xs (omega (arith, leb→lt (key a) (key x) second)) low,
      insert_by-IsSorted a xs h,
    )
  ]

  sort_by-IsSorted : (xs : List A) → IsSorted key (sort_by key xs)
  unfolding sort_by
  sort_by-IsSorted [] = tt
  sort_by-IsSorted (x ∷ xs) = insert_by-IsSorted x (sort_by key xs) (sort_by-IsSorted xs)

  All-slice_to : (P : A → Type 0) (n : ℕ) (xs : List A) → All P xs → All P (slice_to n xs)
  unfolding slice_to
  All-slice_to P zero xs h = tt
  All-slice_to P (suc n) [] h = tt
  All-slice_to P (suc n) (x ∷ xs) (p, h) = (p, All-slice_to P n xs h)

  slice_to-IsSorted : (n : ℕ) (xs : List A) → IsSorted key xs → IsSorted key (slice_to n xs)
  unfolding slice_to
  slice_to-IsSorted zero xs h = tt
  slice_to-IsSorted (suc n) [] h = tt
  slice_to-IsSorted (suc n) (x ∷ xs) (p, h) =
      (All-slice_to (λ b. key x ≤ key b) n xs p, slice_to-IsSorted n xs h)

  length-slice_to : (n : ℕ) (xs : List A) → length (slice_to n xs) ≤ n
  unfolding slice_to
  length-slice_to zero xs = omega arith
  length-slice_to (suc n) [] = omega arith
  length-slice_to (suc n) (x ∷ xs) = omega (arith, length-slice_to n xs)

All-filter-both :
    {A : Type 0} (P : A → Type 0) (p : A → Bool) (xs : List A)
    → All P xs
    → All (λ x. (p x ≡ true) × P x) (filter p xs)
All-filter-both P p [] h = tt
All-filter-both P p (x ∷ xs) (q, h) = elim (Bool-cases (p x)) [
  | inl kept ↦ rw kept ((kept, q), All-filter-both P p xs h)
  | inr gone ↦ rw gone (All-filter-both P p xs h)
]

-- What holds of all stored deliveries holds of the due ones.
pub list_due_deliveries-All :
    (P : EventDelivery → Type 0) (now limit : ℕ) (store : ServiceStore)
    → All P (Map.values store.deliveries)
    → All (λ x. (is_due now x ≡ true) × P x) (list_due_deliveries now limit store)
unfolding list_due_deliveries
list_due_deliveries-All P now limit store h =
    let Q : EventDelivery → Type 0 = λ x. (is_due now x ≡ true) × P x in
    let due = filter (is_due now) (Map.values store.deliveries) in
    let at : EventDelivery → ℕ = λ delivery. delivery.next_attempt_at in
    All-slice_to at Q limit (sort_by at due)
      (All-sort_by at Q due (All-filter-both P (is_due now) (Map.values store.deliveries) h))

-- The due deliveries come in the order of their times, are at most as many as the limit, and each
-- is pending with a time that has come.
pub list_due_deliveries-IsSorted :
    (now limit : ℕ) (store : ServiceStore)
    → IsSorted (λ delivery. delivery.next_attempt_at) (list_due_deliveries now limit store)
      × (length (list_due_deliveries now limit store) ≤ limit)
      × All (λ delivery. is_due now delivery ≡ true) (list_due_deliveries now limit store)
unfolding list_due_deliveries
list_due_deliveries-IsSorted now limit store =
    let due = filter (is_due now) (Map.values store.deliveries) in
    let ordered = sort_by (λ delivery. delivery.next_attempt_at) due in
    (
      slice_to-IsSorted (λ delivery. delivery.next_attempt_at) limit ordered
          (sort_by-IsSorted (λ delivery. delivery.next_attempt_at) due),
      length-slice_to (λ delivery. delivery.next_attempt_at) limit ordered,
      All-slice_to (λ delivery. delivery.next_attempt_at) (λ delivery. is_due now delivery ≡ true)
          limit ordered
          (All-sort_by (λ delivery. delivery.next_attempt_at)
            (λ delivery. is_due now delivery ≡ true) due
            (All-filter (is_due now) (Map.values store.deliveries))),
    )
