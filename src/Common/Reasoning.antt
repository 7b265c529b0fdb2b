-- ===== src/Common/Reasoning.antt =====
-- Reasoning about methods: what they keep, and what a successful chain went through.
use mathlib.Core.Path.{◌≡◌, refl}
use mathlib.Core.Logic.{◌⊎◌, inl, inr}
use mathlib.Core.Bool.{Bool, true, false}
use mathlib.Core.Option.{Option, none, some}
use warden_md.Common.Tests.{if◌then◌else◌}
use warden_md.Common.Effects.{
  Result, ok, err, Exec, pure, throw, lift, require, gets, throw_if, continue, ◌>>=◌, is_ok,
}

-- A method that throws or returns leaves the state in relation `R` to the one that it found.
pub record Moves {ℓ} {E S A : Type ℓ} (R : S → S → Type ℓ) (m : Exec E S A) : Type ℓ where
  pub at : (s : S) → R s (m s).1

-- A method keeps a property of the state.
pub record Keeps {ℓ} {E S A : Type ℓ} (P : S → Type ℓ) (m : Exec E S A) : Type ℓ where
  pub at : (s : S) → P s → P (m s).1

module _ {ℓ} {E S : Type ℓ} (R : S → S → Type ℓ) (same : (s : S) → R s s)
    (trans : (s t u : S) → R s t → R t u → R s u) where
  pub Moves-pure : {A : Type ℓ} (a : A) → Moves {E = E} R (pure a)
  Moves-pure a = record { at = same }

  pub Moves-throw : {A : Type ℓ} (e : E) → Moves {A = A} R (throw e)
  Moves-throw e = record { at = same }

  pub Moves-lift : {A : Type ℓ} (r : Result E A) → Moves R (lift r)
  Moves-lift r = record { at = same }

  pub Moves-gets : {A : Type ℓ} (f : S → A) → Moves {E = E} R (gets f)
  Moves-gets f = record { at = same }

  pub Moves-require : {A : Type ℓ} (o : Option A) (e : E) → Moves R (require o e)
  Moves-require none e = record { at = same }
  Moves-require (some a) e = record { at = same }

  pub Moves-bind :
      {A B : Type ℓ} (m : Exec E S A) (f : A → Exec E S B)
      → Moves R m
      → ((a : A) → Moves R (f a))
      → Moves R (m >>= f)
  Moves-bind {A} m f km kf = record { at = λ s. go s (m s).0 }
    where
      go : (s : S) (r : Result E A) → R s (continue r f (m s).1).1
      go s (ok a) = trans s (m s).1 _ (km.at s) ((kf a).at (m s).1)
      go s (err e) = km.at s

  pub Moves-if :
      {A : Type ℓ} (b : Bool) (m n : Exec E S A)
      → Moves R m
      → Moves R n
      → Moves R (if b then m else n)
  Moves-if true m n km kn = km
  Moves-if false m n km kn = kn

module _ {E S : Type 0} (R : S → S → Type 0) (same : (s : S) → R s s) where
  pub Moves-throw_if : (b : Bool) (e : E) → Moves R (throw_if b e)
  Moves-throw_if true e = record { at = same }
  Moves-throw_if false e = record { at = same }

module _ {ℓ} {E S A B : Type ℓ} (P : S → Type ℓ) (m : Exec E S A) (f : A → Exec E S B) where
  -- The second part may use what a success of the first part says.
  pub Keeps-bind_of :
      Keeps P m → ((a : A) (s : S) → (m s).0 ≡ ok a → P s → P (f a (m s).1).1) → Keeps P (m >>= f)
  Keeps-bind_of km kf = record { at = λ s h. go s (m s).0 refl h }
    where
      go : (s : S) (r : Result E A) → (m s).0 ≡ r → P s → P (continue r f (m s).1).1
      go s (ok a) e h = kf a s e h
      go s (err x) e h = km.at s h

  pub Keeps-bind : Keeps P m → ((a : A) → Keeps P (f a)) → Keeps P (m >>= f)
  Keeps-bind km kf = Keeps-bind_of km (λ a s _ h. (kf a).at (m s).1 (km.at s h))

-- Inversion of a successful chain.
module _ {ℓ} {E S A B : Type ℓ} (m : Exec E S A) (f : A → Exec E S B) where
  pub bind-eq-ok :
      (s : S) {b : B}
      → ((m >>= f) s).0 ≡ ok b
      → (a : A) × ((m s).0 ≡ ok a) × ((f a (m s).1).0 ≡ ok b)
  bind-eq-ok s {b} h = go (m s).0 refl h
    where
      go :
          (r : Result E A)
          → (m s).0 ≡ r
          → (continue r f (m s).1).0 ≡ ok b
          → (a : A) × ((m s).0 ≡ ok a) × ((f a (m s).1).0 ≡ ok b)
      go (ok a) e h' = (a, e, h')
      go (err x) e h' = cc

module _ {E S : Type 0} where
  pub throw_if-eq-ok : (b : Bool) (e : E) (s : S) → (throw_if b e s).0 ≡ ok tt → b ≡ false
  throw_if-eq-ok true e s h = cc
  throw_if-eq-ok false e s h = refl

  pub state-throw_if : (b : Bool) (e : E) (s : S) → (throw_if b e s).1 ≡ s
  state-throw_if true e s = refl
  state-throw_if false e s = refl

pub Result-cases {ℓ} :
    {E A : Type ℓ} (r : Result E A) → ((a : A) × (r ≡ ok a)) ⊎ ((e : E) × (r ≡ err e))
Result-cases (ok a) = inl (a, refl)
Result-cases (err e) = inr (e, refl)

-- The rule for a chain at one state.
pub bind_at {ℓ} :
    {E S A B : Type ℓ} (P : S → Type ℓ) (m : Exec E S A) (f : A → Exec E S B) (s : S)
    → P (m s).1
    → ((a : A) (t : S) → P t → P (f a t).1)
    → P ((m >>= f) s).1
bind_at {A} P m f s h k = go (m s).0
  where
    go : (r : Result _ A) → P (continue r f (m s).1).1
    go (ok a) = k a (m s).1 h
    go (err e) = h

-- Where a chain throws: in its first part, or in its second part after a success of the first.
module _ {ℓ} {E S A B : Type ℓ} (m : Exec E S A) (f : A → Exec E S B) where
  pub bind-eq-err :
      (s : S) {e : E}
      → ((m >>= f) s).0 ≡ err e
      → (((m s).0 ≡ err e) × (((m >>= f) s).1 ≡ (m s).1))
        ⊎ ((a : A) × ((m s).0 ≡ ok a)
            × ((f a (m s).1).0 ≡ err e)
            × (((m >>= f) s).1 ≡ (f a (m s).1).1))
  bind-eq-err s {e} h = go (m s).0 refl h
    where
      go :
          (r : Result E A)
          → (m s).0 ≡ r
          → (continue r f (m s).1).0 ≡ err e
          → (((m s).0 ≡ err e) × ((continue r f (m s).1).1 ≡ (m s).1))
            ⊎ ((a : A) × ((m s).0 ≡ ok a)
                × ((f a (m s).1).0 ≡ err e)
                × ((continue r f (m s).1).1 ≡ (f a (m s).1).1))
      go (ok a) p h' = inr (a, p, h', refl)
      go (err x) p h' = inl (cc, refl)

-- A chain of methods that never throw does not throw.
pub is_ok-bind {ℓ} :
    {E S A B : Type ℓ} (m : Exec E S A) (f : A → Exec E S B) (s : S)
    → is_ok (m s).0 ≡ true
    → ((a : A) (t : S) → is_ok (f a t).0 ≡ true)
    → is_ok ((m >>= f) s).0 ≡ true
is_ok-bind {E} {A} m f s h k = go (m s).0 h
  where
    go : (r : Result E A) → is_ok r ≡ true → is_ok (continue r f (m s).1).0 ≡ true
    go (ok a) p = k a (m s).1
    go (err e) p = cc
