-- ===== src/Service/Claim/Advance.antt =====
-- Every operation on a record that was read moves the store forward, and what a success says.
use warden_md.Common.{
  ltb, if◌then◌else◌, Bool-cases, is_some, Result, ok, err, pure, throw, throw_if, continue, ◌>>=◌,
  ℕ, suc, ◌≡◌, refl, sym, ap, subst, ◌⊎◌, inl, inr, Bool, true, false, ◌&&◌, ◌||◌, Option, arith,
}
use warden_md.Service.Types.{ClaimStatus, approved, expired, same_claim_status, ClaimRecord}
use warden_md.Service.Errors.{OauthErrorCode}
use warden_md.Service.Claim.{
  ClaimDeps, Ceremony, C, with_version, transition, as_expired, claim_now, expire_if_needed,
}
use warden_md.Service.Claim.Follows.{
  Follows, Advances, Advances-same, Advances-refl, Advances-trans, Known, Known-Advances,
}
use warden_md.Service.Claim.Transition.{transition-cases, transition-Advances}

-- A method on a record that was read only moves the store forward.
pub record Forward {A : Type 0} (c : ClaimRecord) (m : C A) : Type 0 where
  pub at : (s : Ceremony) → Known c s → Advances s (m s).1

pub Forward-pure : {A : Type 0} (c : ClaimRecord) (a : A) → Forward c (pure a)
Forward-pure c a = record { at = λ s k. Advances-refl s }

pub Forward-throw :
    {A : Type 0} (c : ClaimRecord) (e : OauthErrorCode) → Forward {A = A} c (throw e)
Forward-throw c e = record { at = λ s k. Advances-refl s }

pub Forward-throw_if : (c : ClaimRecord) (b : Bool) (e : OauthErrorCode) → Forward c (throw_if b e)
Forward-throw_if c true e = record { at = λ s k. Advances-refl s }
Forward-throw_if c false e = record { at = λ s k. Advances-refl s }

pub Forward-if :
    {A : Type 0} (c : ClaimRecord) (b : Bool) (m n : C A)
    → Forward c m
    → Forward c n
    → Forward c (if b then m else n)
Forward-if c true m n p q = p
Forward-if c false m n p q = q

-- The second part may use what a success of the first says.
pub Forward-bind_of :
    {A B : Type 0} (c : ClaimRecord) (m : C A) (f : A → C B)
    → Forward c m
    → ((a : A) (s : Ceremony) → Known c s → (m s).0 ≡ ok a → Forward c (f a))
    → Forward c (m >>= f)
Forward-bind_of {A} c m f p q = record { at = λ s k. go s (m s).0 refl k }
  where
    go :
        (s : Ceremony) (r : Result OauthErrorCode A)
        → (m s).0 ≡ r
        → Known c s
        → Advances s (continue r f (m s).1).1
    go s (ok a) e k =
        Advances-trans s (m s).1 _ (p.at s k)
          ((q a s k e).at (m s).1 (Known-Advances c s (m s).1 k (p.at s k)))
    go s (err x) e k = p.at s k

pub Forward-bind :
    {A B : Type 0} (c : ClaimRecord) (m : C A) (f : A → C B)
    → Forward c m
    → ((a : A) → Forward c (f a))
    → Forward c (m >>= f)
Forward-bind c m f p q = Forward-bind_of c m f p (λ a s k e. q a)

-- Expiry lets the record through, or writes the status "expired" over it.
module _ (d : ClaimDeps) (c : ClaimRecord) where
  abbrev pub tick : Ceremony → Ceremony
  tick s = record s { ticks = suc s.ticks }

  pub Advances-tick : (s : Ceremony) → Advances s (tick s)
  Advances-tick s = Advances-same s (tick s) refl refl

  pub expire-cases :
      (s : Ceremony)
      → (expire_if_needed d c s ≡ (ok c, tick s))
        ⊎ (expire_if_needed d c s ≡ transition c as_expired (tick s))
  unfolding expire_if_needed claim_now
  expire-cases s =
      elim (Bool-cases (ltb (d.clock s.ticks) c.expires_at || same_claim_status c.status expired)) [
        | inl alive ↦ inl (rw alive refl)
        | inr late ↦
            elim (Bool-cases (same_claim_status c.status approved && is_some c.grant_used_at)) [
              | inl done ↦ inl (rw (late, done) refl)
              | inr unused ↦ inr (rw (late, unused) refl)
            ]
      ]

  pub Follows-write :
      (status : ClaimStatus) (interval attempts : ℕ) (polled code_used used : Option ℕ)
      → (is_some c.grant_used_at ≡ true → c.grant_used_at ≡ used)
      → Follows c (record c {
        status = status;
        interval_seconds = interval;
        verification_attempts = attempts;
        last_poll_at = polled;
        user_code_used_at = code_used;
        grant_used_at = used;
        version = suc c.version;
      })
  Follows-write status interval attempts polled code_used used keep = record {
    later = omega arith;
    same = λ e. absurd (omega (arith, e));
    id = refl;
    identity_id = refl;
    scopes = refl;
    resource = refl;
    expires_at = refl;
    user_code_hash = refl;
    device_code_hash = refl;
    used = keep;
  }

  pub Forward-expire : Forward c (expire_if_needed d c)
  unfolding with_version
  Forward-expire = record {
    at = λ s k. elim (expire-cases s) [
      | inl e ↦ rw e (Advances-tick s)
      | inr e ↦ rw e (
          Advances-trans s (tick s) _ (Advances-tick s) (
            transition-Advances c as_expired (tick s)
              (Known-Advances c s (tick s) k (Advances-tick s))
              (Follows-write expired c.interval_seconds c.verification_attempts c.last_poll_at
                c.user_code_used_at c.grant_used_at (λ _. refl))))
    ];
  }

  result-expire :
      (s : Ceremony) {a : ClaimRecord}
      → Known c s
      → (expire_if_needed d c s).0 ≡ ok a
      → (c ≡ a) ⊎ (a.status ≡ expired)
  unfolding with_version
  result-expire s {a} k h = elim (expire-cases s) [
    | inl e ↦ inl (cc (e, h))
    | inr e ↦
        elim (transition-cases c as_expired (tick s)
          (Known-Advances c s (tick s) k (Advances-tick s))) [
            | inl (here, done) ↦ inr (
                let one : with_version c as_expired ≡ a = cc (e, h, done) in
                ap (λ x. x.status) (sym one))
            | inr (failed, same) ↦ absurd (cc (e, h, failed))
          ]
  ]

  -- What follows the expiry of a record runs on the record itself, or on one that has expired.
  pub Forward-after_expiry :
      {A : Type 0} (f : ClaimRecord → C A)
      → Forward c (f c)
      → ((e : ClaimRecord) → e.status ≡ expired → Forward c (f e))
      → Forward c (expire_if_needed d c >>= f)
  Forward-after_expiry f p q = Forward-bind_of c (expire_if_needed d c) f Forward-expire λ a s k h.
      elim (result-expire s k h) [
        | inl one ↦ subst (λ x. Forward c (f x)) one p
        | inr late ↦ q a late
      ]

  pub Forward-claim_now : Forward c (claim_now d)
  unfolding claim_now
  Forward-claim_now = record { at = λ s k. Advances-tick s }

  pub Forward-transition :
      (changes : ClaimRecord → ClaimRecord)
      → Follows c (with_version c changes)
      → Forward c (transition c changes)
  Forward-transition changes f = record { at = λ s k. transition-Advances c changes s k f }
