-- ===== src/Service/ClaimState/Tests.antt =====
-- The theorems about `DurableObjectClaimState` at concrete inputs.
use warden_md.Common.{append, ok, ℕ, String, ◌≡◌, refl, none, some, [], ◌∷◌}
use warden_md.Common.Map
use warden_md.Common.Map.{Map}
use warden_md.Service.Types.{pending, approved, ClaimRecord}
use warden_md.Service.Claim.{Ceremony, find_claim_by_id, create_claim, compare_and_set}
use warden_md.Service.Claim.Follows.{Known-read}
use warden_md.Service.ClaimState.{
  ClaimState, create_durable_claim, find_durable_claim, compare_and_set_durable, active_claims,
  delete_each, earliest, reschedule, remove_expired_claims,
}
use warden_md.Service.ClaimState.Expiry.{IsScheduled}
use warden_md.Service.ClaimState.Schedule.{unexpired, remove_expired_claims-IsScheduled}
use warden_md.Service.ClaimState.Alarm.{Reached, empty, created, Reached-IsScheduled}
use warden_md.Service.ClaimState.Refinement.{Agrees, durable_claims_refine}

abbrev claim_until : String → ℕ → ClaimRecord
claim_until id expires_at = record {
  id = id;
  identity_id = "i";
  user_code_hash = append "u" id;
  device_code_hash = append "d" id;
  status = pending;
  scopes = [];
  resource = none;
  created_at = 0;
  expires_at = expires_at;
  interval_seconds = 5;
  last_poll_at = none;
  verification_attempts = 0;
  user_code_used_at = none;
  grant_used_at = none;
  version = 1;
}

abbrev two_claims : ClaimState
two_claims = record {
  claims = ("a", claim_until "a" 90) ∷ ("b", claim_until "b" 50) ∷ [];
  user_codes = ("ua", "a") ∷ ("ub", "b") ∷ [];
  device_codes = ("da", "a") ∷ ("db", "b") ∷ [];
  active_claim_ids = some ("a" ∷ "b" ∷ []);
  next_expiry = some 50;
  alarm = some 50;
}

two_claims-Reached : Reached two_claims
unfolding create_durable_claim Map.get Map.set
two_claims-Reached = created (claim_until "b" 50) (created (claim_until "a" 90) empty refl) refl

Reached-IsScheduled_example : IsScheduled two_claims
Reached-IsScheduled_example = Reached-IsScheduled two_claims-Reached

remove_expired_claims-IsScheduled_example :
    IsScheduled (remove_expired_claims 60 two_claims).1
    × ((k : String)
        → Map.get k (remove_expired_claims 60 two_claims).1.claims
          ≡ unexpired 60 (Map.get k two_claims.claims))
remove_expired_claims-IsScheduled_example =
    remove_expired_claims-IsScheduled 60 two_claims (Reached-IsScheduled two_claims-Reached)

left_over : (remove_expired_claims 60 two_claims).1.alarm ≡ some 90
unfolding remove_expired_claims active_claims delete_each reschedule earliest Map.get Map.delete
left_over = refl

abbrev same_claims : Ceremony
same_claims = record { claims = two_claims.claims; buckets = []; ticks = 0; drawn = 0 }

abbrev next_claim : ClaimRecord
next_claim = record (claim_until "a" 90) { status = approved; version = 2 }

durable_claims_refine_example :
    ((find_claim_by_id "b" same_claims).0 ≡ ok (find_durable_claim "b" two_claims))
    × ((t : ClaimState)
        → create_durable_claim (claim_until "c" 70) two_claims ≡ some t
        → Agrees (create_claim (claim_until "c" 70) same_claims).1 t)
    × ((compare_and_set (claim_until "a" 90) next_claim same_claims).0
        ≡ ok (compare_and_set_durable (claim_until "a" 90) next_claim two_claims).0)
    × Agrees
        (compare_and_set (claim_until "a" 90) next_claim same_claims).1
        (compare_and_set_durable (claim_until "a" 90) next_claim two_claims).1
unfolding Map.get
durable_claims_refine_example =
    durable_claims_refine (claim_until "a" 90) next_claim (claim_until "c" 70) "b" same_claims
      two_claims refl (Known-read (claim_until "a" 90) same_claims refl)
      (record { id = refl; user_code_hash = refl; device_code_hash = refl })
