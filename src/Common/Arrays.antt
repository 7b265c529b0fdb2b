-- ===== src/Common/Arrays.antt =====
-- JavaScript's array methods on lists, measured by native numbers.
use Prim.Native.Nat.{ℕ, suc, ◌≤◌}
use Prim.Native.String.{String}
use mathlib.Core.Path.{◌≡◌, refl, ap}
use mathlib.Core.Logic.{◌↔◌, inl, inr}
use mathlib.Core.Bool.{Bool, true, false, ◌&&◌, ◌||◌}
use mathlib.Core.Option.{Option, none, some}
use mathlib.Core.List.{List, [], ◌∷◌}
use native.Mathlib.Omega.{arith}
use text.Mathlib.Text.{◌==◌}
use warden_md.Common.Tests.{if◌then◌else◌, Bool-cases}

module _ {ℓ} {A : Type ℓ} where
  abbrev pub length : List A → ℕ
  length [] = 0
  length (x ∷ xs) = suc (length xs)

  abbrev pub all : (A → Bool) → List A → Bool
  all p [] = true
  all p (x ∷ xs) = p x && all p xs

  abbrev pub any : (A → Bool) → List A → Bool
  any p [] = false
  any p (x ∷ xs) = p x || any p xs

  abbrev pub find : (A → Bool) → List A → Option A
  find p [] = none
  find p (x ∷ xs) = if p x then some x else find p xs

  abbrev pub filter : (A → Bool) → List A → List A
  filter p [] = []
  filter p (x ∷ xs) = let rest = filter p xs in if p x then x ∷ rest else rest

-- `xs.includes(s)`, and `new Set(xs).has(s)`
abbrev pub includes : List String → String → Bool
includes xs s = any (λ x. x == s) xs

module _ {ℓ κ} {A : Type ℓ} (P : A → Type κ) where
  abbrev pub All : List A → Type κ
  All [] = Unit
  All (x ∷ xs) = P x × All xs

module _ {ℓ} {A : Type ℓ} (p : A → Bool) where
  pub length-filter : (xs : List A) → length (filter p xs) ≤ length xs
  length-filter [] = omega arith
  length-filter (x ∷ xs) = ground (arith, length-filter xs)

  -- A filter that drops nothing is the list, and every entry passes.
  pub filter-eq_of_length :
      (xs : List A)
      → length (filter p xs) ≡ length xs
      → (filter p xs ≡ xs) × All (λ x. p x ≡ true) xs
  filter-eq_of_length [] h = (refl, tt)
  filter-eq_of_length (x ∷ xs) h = elim (Bool-cases (p x)) [
    | inl e ↦
        let (same, passed) = filter-eq_of_length xs (ground (arith, e)) in
        (rw e (ap (λ t. x ∷ t) same), (e, passed))
    | inr e ↦ absurd (ground (arith, e, length-filter xs))
  ]

  pub All-filter : (xs : List A) → All (λ x. p x ≡ true) (filter p xs)
  All-filter [] = tt
  All-filter (x ∷ xs) = ground (arith, All-filter xs)

  pub all_iff : (xs : List A) → (all p xs ≡ true) ↔ All (λ x. p x ≡ true) xs
  all_iff [] = (λ _. tt, λ _. refl)
  all_iff (x ∷ xs) = grind (arith, all_iff xs)
