-- ===== src/Common/Returns.antt =====
-- What a method that returns says of its value, and how every end of it, a throw too, leaves the
-- state.
use mathlib.Core.Path.{◌≡◌, refl, subst}
use mathlib.Core.Bool.{Bool, true, false}
use mathlib.Core.Option.{Option, none, some}
use warden_md.Common.Tests.{if◌then◌else◌}
use warden_md.Common.Effects.{
  Result, ok, err, Exec, pure, throw, require, gets, throw_if, continue, ◌>>=◌, ◌>>◌,
}
use warden_md.Common.Reasoning.{bind-eq-ok}

-- `m`, run from a state that `s0` is related to.
pub record Ensures {E S A : Type 0} (R : S → S → Type 0) (s0 : S) (Q : A → Type 0) (m : Exec E S A)
    : Type 0 where
  pub at : (s : S) (a : A) → R s0 s → (m s).0 ≡ ok a → Q a
  pub moves : (s : S) → R s0 s → R s (m s).1

module _ {E S : Type 0} (R : S → S → Type 0) (same : (s : S) → R s s)
    (trans : (s t u : S) → R s t → R t u → R s u) {s0 : S} where
  module _ {A : Type 0} where
    pub Ensures-pure : (Q : A → Type 0) (a : A) → Q a → Ensures {E = E} R s0 Q (pure a)
    Ensures-pure Q a q = record { at = λ s b r h. subst Q (cc h) q; moves = λ s r. same s }

    pub Ensures-throw : (Q : A → Type 0) (e : E) → Ensures {E = E} R s0 Q (throw e)
    Ensures-throw Q e = record { at = λ s b r h. absurd (cc h); moves = λ s r. same s }

    pub Ensures-require : (o : Option A) (e : E) → Ensures R s0 (λ a. o ≡ some a) (require o e)
    Ensures-require none e = record { at = λ s b r h. absurd (cc h); moves = λ s r. same s }
    Ensures-require (some a) e = record { at = λ s b r h. cc h; moves = λ s r. same s }

    pub Ensures-gets :
        (Q : A → Type 0) (f : S → A)
        → ((s : S) → R s0 s → Q (f s))
        → Ensures {E = E} R s0 Q (gets f)
    Ensures-gets Q f q = record { at = λ s b r h. subst Q (cc h) (q s r); moves = λ s r. same s }

    pub Ensures-if :
        (Q : A → Type 0) (b : Bool) (m n : Exec E S A)
        → (b ≡ true → Ensures R s0 Q m)
        → (b ≡ false → Ensures R s0 Q n)
        → Ensures R s0 Q (if b then m else n)
    Ensures-if Q true m n p q = p refl
    Ensures-if Q false m n p q = q refl

  module _ {A B : Type 0} (Q : B → Type 0) (m : Exec E S A) (f : A → Exec E S B) where
    pub Ensures-bind :
        (P : A → Type 0)
        → Ensures R s0 P m
        → ((a : A) → P a → Ensures R s0 Q (f a))
        → Ensures R s0 Q (m >>= f)
    Ensures-bind P p q = record {
      at = λ s b r h.
          let (a, first, rest) = bind-eq-ok m f s h in
          (q a (p.at s a r first)).at (m s).1 b (trans s0 s (m s).1 r (p.moves s r)) rest;
      moves = λ s r. go s r (m s).0 refl;
    }
      where
        go : (s : S) → R s0 s → (r : Result E A) → (m s).0 ≡ r → R s (continue r f (m s).1).1
        go s h (ok a) e =
            trans s (m s).1 _ (p.moves s h)
              ((q a (p.at s a h e)).moves (m s).1 (trans s0 s (m s).1 h (p.moves s h)))
        go s h (err x) e = p.moves s h

  -- After `if (b) { throw e; }` the test is false.
  module _ {B : Type 0} (Q : B → Type 0) (b : Bool) (e : E) (n : Exec E S B) where
    pub Ensures-guard : (b ≡ false → Ensures R s0 Q n) → Ensures R s0 Q (throw_if b e >> n)
    Ensures-guard q = go b q
      where
        go : (b : Bool) → (b ≡ false → Ensures R s0 Q n) → Ensures R s0 Q (throw_if b e >> n)
        go true q = record { at = λ s x r h. absurd (cc h); moves = λ s r. same s }
        go false q = record {
          at = λ s x r h. (q refl).at s x r h;
          moves = λ s r. (q refl).moves s r;
        }

-- A chain whose first part succeeds is its second part.
pub bind-run {ℓ} :
    {E S A B : Type ℓ} (m : Exec E S A) (f : A → Exec E S B) (s : S) {a : A}
    → (m s).0 ≡ ok a
    → (m >>= f) s ≡ f a (m s).1
bind-run m f s first = rw first refl
