-- ===== src/Service/Claim/Ticks.antt =====
-- packages/service/src/claim.ts: the readings of the clock are counted, and the count never goes down.
use warden_md.Common.{
  ltb, if◌then◌else◌, Bool-cases, Option-cases, is_some, pure, throw_if, ◌>>=◌, Moves, Moves-bind,
  Moves-if, Moves-throw_if, ◌≤◌, String, inl, inr, Bool, not, ◌&&◌, ◌||◌, some, arith,
}
use warden_md.Common.Map
use warden_md.Service.Errors.{expired_token, invalid_grant}
use warden_md.Service.Types.{approved, expired, same_claim_status, ClaimRecord}
use warden_md.Service.Claim.{
  ClaimDeps, Ceremony, C, with_version, find_claim_by_id, may_replace, compare_and_set, transition,
  require_claim, as_expired, claim_now, expire_if_needed,
}
use warden_md.Service.Claim.Operations.{consume_current, consume_found, consume_approved_claim}

pub record Later (s t : Ceremony) : Type 0 where
  pub ticks : s.ticks ≤ t.ticks

Later-refl : (s : Ceremony) → Later s s
Later-refl s = record { ticks = omega arith }

Later-trans : (s t u : Ceremony) → Later s t → Later t u → Later s u
Later-trans s t u p q = record { ticks = omega (arith, p.ticks, q.ticks) }

Later-bind :
    {A B : Type 0} (m : C A) (f : A → C B)
    → Moves Later m
    → ((a : A) → Moves Later (f a))
    → Moves Later (m >>= f)
Later-bind = Moves-bind Later Later-refl Later-trans

Later-if :
    {A : Type 0} (b : Bool) (m n : C A)
    → Moves Later m
    → Moves Later n
    → Moves Later (if b then m else n)
Later-if = Moves-if Later Later-refl Later-trans

transition-Later :
    (current : ClaimRecord) (changes : ClaimRecord → ClaimRecord)
    → Moves Later (transition current changes)
unfolding transition compare_and_set find_claim_by_id
transition-Later current changes =
    Later-bind (compare_and_set current (with_version current changes)) _
      (record {
        at = λ s.
            elim (Bool-cases
              (may_replace (Map.get current.id s.claims) current (with_version current changes))) [
                | inl good ↦ rw good (record { ticks = omega arith })
                | inr bad ↦ rw bad (Later-refl s)
              ];
      })
      λ swapped.
        Later-if swapped (pure (with_version current changes)) _ (record { at = Later-refl })
          (record { at = Later-refl })

module _ (d : ClaimDeps) where
  pub claim_now-Later : Moves Later (claim_now d)
  unfolding claim_now
  claim_now-Later = record { at = λ s. record { ticks = omega arith } }

  expire_if_needed-Later : (claim : ClaimRecord) → Moves Later (expire_if_needed d claim)
  unfolding expire_if_needed
  expire_if_needed-Later claim = Later-bind (claim_now d) _ claim_now-Later λ at.
      Later-if (ltb at claim.expires_at || same_claim_status claim.status expired) (pure claim) _
        (record { at = Later-refl })
        (Later-if (same_claim_status claim.status approved && is_some claim.grant_used_at)
          (pure claim) _ (record { at = Later-refl }) (transition-Later claim as_expired))

  consume_current-Later : (current : ClaimRecord) → Moves Later (consume_current d current)
  unfolding consume_current
  consume_current-Later current =
      Later-bind (throw_if (same_claim_status current.status expired) expired_token) _
        (Moves-throw_if Later Later-refl _ _)
        λ _.
          Later-bind
            (throw_if
              (not (same_claim_status current.status approved) || is_some current.grant_used_at)
              invalid_grant)
            _ (Moves-throw_if Later Later-refl _ _)
            λ _.
              Later-bind (claim_now d) _ claim_now-Later
                λ at. transition-Later current (λ c. record c { grant_used_at = some at })

  pub consume_approved_claim-Later :
      (claim_id : String) → Moves Later (consume_approved_claim d claim_id)
  unfolding consume_approved_claim require_claim find_claim_by_id consume_found
  consume_approved_claim-Later claim_id =
      Later-bind (require_claim claim_id) _
        (record {
          at = λ s. elim (Option-cases (Map.get claim_id s.claims)) [
            | inl gone ↦ rw (require_claim, gone) (Later-refl s)
            | inr (claim, there) ↦ rw (require_claim, there) (Later-refl s)
          ];
        })
        λ claim.
          Later-bind (expire_if_needed d claim) _ (expire_if_needed-Later claim)
            consume_current-Later
