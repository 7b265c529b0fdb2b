-- ===== src/Service/ClaimState.antt =====
-- packages/service/src/repository.ts: `DurableObjectClaimState`. The storage of the object is one map
-- for each kind of key: the keys of two kinds differ, since a claim's identifier starts with "claim_"
-- and a hash is base64url. A method runs as one step, as the object's runtime serializes them.
pub mod Schedule
pub mod Alarm
pub mod Refinement
mod Tests
pub mod Expiry
use Prim.Native.Nat.{min}
use warden_md.Common.{
  ltb, leb, eqb, if◌then◌else◌, truthy, get_or, length, filter, ℕ, suc, String, Bool, true, false,
  not, ◌&&◌, ◌||◌, Option, none, some, List, [], ◌∷◌, ◌++◌, map, ◌==◌,
}
use warden_md.Common.Map
use warden_md.Common.Map.{Map}
use warden_md.Service.Types.{ClaimRecord}

-- The entries under `claimKey`, `userCodeIndexKey`, `deviceCodeIndexKey`, `activeClaimIdsKey` and
-- `nextClaimExpiryKey`, and the alarm of the object.
pub record ClaimState : Type 0 where
  pub claims : Map ClaimRecord
  pub user_codes : Map String
  pub device_codes : Map String
  pub active_claim_ids : Option (List String)
  pub next_expiry : Option ℕ
  pub alarm : Option ℕ

-- A text that is stored, if it is truthy.
abbrev pub is_given : Option String → Bool
is_given none = false
is_given (some s) = truthy s

-- `Math.min(nextExpiry ?? expiresAt, expiresAt)`
abbrev pub earlier : Option ℕ → ℕ → ℕ
earlier next_expiry expires_at = min (get_or next_expiry expires_at) expires_at

-- `nextExpiry === undefined || claim.expiresAt < nextExpiry`
abbrev pub is_sooner : Option ℕ → ℕ → Bool
is_sooner none expires_at = true
is_sooner (some next) expires_at = ltb expires_at next

-- `none` where it throws.
unfoldable pub create_durable_claim : ClaimRecord → ClaimState → Option ClaimState
create_durable_claim claim s =
    if Map.has claim.id s.claims
      || is_given (Map.get claim.user_code_hash s.user_codes)
      || is_given (Map.get claim.device_code_hash s.device_codes)
    then none
    else some (record {
      claims = Map.set claim.id claim s.claims;
      user_codes = Map.set claim.user_code_hash claim.id s.user_codes;
      device_codes = Map.set claim.device_code_hash claim.id s.device_codes;
      active_claim_ids = some (get_or s.active_claim_ids [] ++ claim.id ∷ []);
      next_expiry = some (earlier s.next_expiry claim.expires_at);
      alarm = if is_sooner s.next_expiry claim.expires_at then some claim.expires_at else s.alarm;
    })

unfoldable pub find_durable_claim : String → ClaimState → Option ClaimRecord
find_durable_claim id s = Map.get id s.claims

-- `id ? this.findClaimById(id) : undefined`
abbrev pub claim_under : Option String → ClaimState → Option ClaimRecord
claim_under none s = none
claim_under (some id) s = if truthy id then Map.get id s.claims else none

unfoldable pub find_durable_by_user_code : String → ClaimState → Option ClaimRecord
find_durable_by_user_code hash s = claim_under (Map.get hash s.user_codes) s

unfoldable pub find_durable_by_device_code : String → ClaimState → Option ClaimRecord
find_durable_by_device_code hash s = claim_under (Map.get hash s.device_codes) s

-- The test of `compareAndSet`, which the code writes negated.
unfoldable pub may_swap : Option ClaimRecord → ClaimRecord → ClaimRecord → Bool
may_swap none previous next = false
may_swap (some stored) previous next =
    eqb stored.version previous.version
    && stored.user_code_hash == previous.user_code_hash
    && stored.device_code_hash == previous.device_code_hash
    && next.id == previous.id
    && next.user_code_hash == previous.user_code_hash
    && next.device_code_hash == previous.device_code_hash
    && eqb next.version (suc previous.version)

unfoldable pub compare_and_set_durable : ClaimRecord → ClaimRecord → ClaimState → Bool × ClaimState
unfolding may_swap
compare_and_set_durable previous next s =
    if may_swap (Map.get previous.id s.claims) previous next
    then (true, record s { claims = Map.set next.id next s.claims })
    else (false, s)

-- The claims of the identifiers that have one: what is not there is filtered out later.
abbrev pub add_found : Option ClaimRecord → List ClaimRecord → List ClaimRecord
add_found none rest = rest
add_found (some claim) rest = claim ∷ rest

unfoldable pub active_claims : Map ClaimRecord → List String → List ClaimRecord
active_claims claims [] = []
active_claims claims (id ∷ ids) = add_found (Map.get id claims) (active_claims claims ids)

abbrev pub is_over : ℕ → ClaimRecord → Bool
is_over now claim = leb claim.expires_at now

abbrev pub id_of : ClaimRecord → String
id_of claim = claim.id

unfoldable pub delete_each : {V : Type 0} → List String → Map V → Map V
delete_each [] m = m
delete_each (key ∷ keys) m = delete_each keys (Map.delete key m)

-- `Math.min(...remaining.map((claim) => claim.expiresAt))`, of a list that is not empty.
unfoldable pub earliest : ClaimRecord → List ClaimRecord → ℕ
earliest claim [] = claim.expires_at
earliest claim (other ∷ rest) = min claim.expires_at (earliest other rest)

abbrev pub delete_expired : List ClaimRecord → ClaimState → ClaimState
delete_expired over s = record s {
  claims = delete_each (map id_of over) s.claims;
  user_codes = delete_each (map (λ claim. claim.user_code_hash) over) s.user_codes;
  device_codes = delete_each (map (λ claim. claim.device_code_hash) over) s.device_codes;
}

-- What is left to wait for.
unfoldable pub reschedule : List ClaimRecord → ClaimState → ClaimState
unfolding earliest
reschedule [] s = record s { active_claim_ids = none; next_expiry = none; alarm = none }
reschedule (claim ∷ rest) s = record s {
  active_claim_ids = some (map id_of (claim ∷ rest));
  next_expiry = some (earliest claim rest);
  alarm = some (earliest claim rest);
}

abbrev pub remove_from : ℕ → List String → ClaimState → ℕ × ClaimState
remove_from now [] s = (0, record s { alarm = none })
remove_from now (id ∷ ids) s =
    let claims = active_claims s.claims (id ∷ ids) in
    let over = filter (is_over now) claims in
    let remaining = filter (λ claim. not (is_over now claim)) claims in
    (length over, reschedule remaining (delete_expired over s))

unfoldable pub remove_expired_claims : ℕ → ClaimState → ℕ × ClaimState
unfolding active_claims delete_each reschedule
remove_expired_claims now s = remove_from now (get_or s.active_claim_ids []) s
