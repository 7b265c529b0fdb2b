-- ===== src/Service/Claim/Progress.antt =====
-- The operations of the ceremony move the store forward; what a granted consumption says.
use warden_md.Common.{
  is_some, throw_if, throw_if-eq-ok, ℕ, suc, ◌+◌, ◌≡◌, refl, true, false, not, ◌||◌, Option, some,
  arith,
}
use warden_md.Service.Types.{
  user_verified, approved, denied, expired, same_claim_status, ClaimRecord,
}
use warden_md.Service.Errors.{access_denied, expired_token, invalid_grant}
use warden_md.Service.Claim.{ClaimDeps, with_version}
use warden_md.Service.Claim.Operations.{
  Decision, status_of, verify_current, verify_found, decide_current, decide_found, poll_at,
  poll_current, poll_found, consume_current, consume_found,
}
use warden_md.Service.Claim.Follows.{Advances-refl}
use warden_md.Service.Claim.Advance.{
  Forward, Forward-pure, Forward-throw, Forward-throw_if, Forward-if, Forward-bind_of, Forward-bind,
  Follows-write, Forward-after_expiry, Forward-claim_now, Forward-transition,
}

module _ (d : ClaimDeps) (c : ClaimRecord) where
  keep_use :
      is_some c.grant_used_at ≡ false
      → {used : Option ℕ} → is_some c.grant_used_at ≡ true
      → c.grant_used_at ≡ used
  keep_use unused used = absurd (cc (unused, used))

  Forward-consume_current : Forward c (consume_current d c)
  unfolding consume_current with_version
  Forward-consume_current = Forward-bind c _ _ (Forward-throw_if c _ _) λ _.
      Forward-bind_of c
        (throw_if (not (same_claim_status c.status approved) || is_some c.grant_used_at)
          invalid_grant)
        _ (Forward-throw_if c _ _)
        λ _ s k open_claim. Forward-bind c _ _ (Forward-claim_now d c) λ at.
          Forward-transition d c _ (
            Follows-write d c c.status c.interval_seconds c.verification_attempts c.last_poll_at
              c.user_code_used_at (some at)
              (keep_use (
                ground (
                  arith,
                  throw_if-eq-ok
                      (not (same_claim_status c.status approved) || is_some c.grant_used_at)
                      invalid_grant s open_claim,
                ))))

  pub Forward-consume : Forward c (consume_found d c)
  unfolding consume_found
  Forward-consume =
      Forward-after_expiry d c (consume_current d) Forward-consume_current
        λ e late. record { at = λ s k. unfold consume_current in rw late (Advances-refl s) }

  Forward-decide_current : (decision : Decision) → Forward c (decide_current d decision c)
  unfolding decide_current with_version
  Forward-decide_current decision = Forward-bind c _ _ (Forward-throw_if c _ _) λ _.
      Forward-transition d c _ (
        Follows-write d c (status_of decision) c.interval_seconds c.verification_attempts
          c.last_poll_at c.user_code_used_at c.grant_used_at (λ _. refl))

  pub Forward-decide : (decision : Decision) → Forward c (decide_found d decision c)
  unfolding decide_found
  Forward-decide decision =
      Forward-after_expiry d c (decide_current d decision) (Forward-decide_current decision)
        λ e late. record { at = λ s k. unfold decide_current in rw late (Advances-refl s) }

  Forward-verify_current : Forward c (verify_current d c)
  unfolding verify_current with_version
  Forward-verify_current = Forward-bind c _ _ (Forward-throw_if c _ _) λ _.
      Forward-bind c _ _ (Forward-claim_now d c) λ at.
        Forward-if c _ _ _
          (Forward-bind c _ _
            (Forward-transition d c _ (
              Follows-write d c denied c.interval_seconds c.verification_attempts c.last_poll_at
                (some at) c.grant_used_at (λ _. refl)))
            λ _. Forward-throw c _)
          (Forward-transition d c _ (
            Follows-write d c user_verified c.interval_seconds (suc c.verification_attempts)
              c.last_poll_at (some at) c.grant_used_at (λ _. refl)))

  pub Forward-verify : Forward c (verify_found d c)
  unfolding verify_found
  Forward-verify =
      Forward-after_expiry d c (verify_current d) Forward-verify_current
        λ e late. record { at = λ s k. unfold verify_current in rw late (Advances-refl s) }

  Forward-poll_at : (at : ℕ) → Forward c (poll_at d c at)
  unfolding poll_at with_version
  Forward-poll_at at =
      Forward-if c _ _ _
        (Forward-bind c _ _
          (Forward-transition d c _ (
            Follows-write d c c.status (c.interval_seconds + 5) c.verification_attempts
              c.last_poll_at c.user_code_used_at c.grant_used_at (λ _. refl)))
          λ claim. Forward-bind c _ _ (Forward-throw_if c _ _) λ _. Forward-throw c _)
        (Forward-bind c _ _
          (Forward-transition d c _ (
            Follows-write d c c.status c.interval_seconds c.verification_attempts (some at)
              c.user_code_used_at c.grant_used_at (λ _. refl)))
          λ polled. Forward-if c _ _ _ (Forward-pure c _) (Forward-pure c _))

  Forward-poll_current : Forward c (poll_current d c)
  unfolding poll_current
  Forward-poll_current =
      Forward-bind c (throw_if (same_claim_status c.status expired) expired_token) _
        (Forward-throw_if c _ _)
        λ _.
          Forward-bind c (throw_if (same_claim_status c.status denied) access_denied) _
            (Forward-throw_if c _ _)
            λ _. Forward-bind c _ _ (Forward-claim_now d c) λ at. Forward-poll_at at

  pub Forward-poll : Forward c (poll_found d c)
  unfolding poll_found
  Forward-poll =
      Forward-after_expiry d c (poll_current d) Forward-poll_current
        λ e late. record { at = λ s k. unfold poll_current in rw late (Advances-refl s) }
