-- ===== src/Service/Claim.antt =====
-- packages/service/src/claim.ts: `ClaimCeremony`, over the claims of the `InMemoryServiceStore` of
-- packages/service/src/repository.ts and the buckets of a `FixedWindowRateLimiter`.
pub mod Operations
pub mod Follows
pub mod Transition
pub mod Advance
pub mod Progress
pub mod Consumption
pub mod Ticks
pub mod Interleaving
use warden_md.Common.{
  ltb, eqb, if◌then◌else◌, is_some, find, ok, Exec, pure, throw, require, gets, ◌>>=◌, ◌>>◌, ℕ, suc,
  String, Bool, true, false, ◌&&◌, ◌||◌, Option, none, some, ◌==◌,
}
use warden_md.Common.Map
use warden_md.Common.Map.{Map}
use warden_md.Service.Types.{approved, expired, same_claim_status, ClaimRecord, ClaimOptions}
use warden_md.Service.Errors.{OauthErrorCode, invalid_grant, temporarily_unavailable}
use warden_md.Service.RateLimit.{Bucket, take}

-- The constructor's arguments and the platform: readings of the clock and the identifiers that the
-- generator hands out are streams; `sha256` is `crypto.subtle.digest` in base64url.
pub record ClaimDeps : Type 0 where
  pub clock : ℕ → ℕ
  pub next : ℕ → String → String
  pub sha256 : String → String
  pub to_upper_case : String → String
  pub options : ClaimOptions

-- The claims, the rate limiter's buckets, and how many clock readings and identifiers were taken.
pub record Ceremony : Type 0 where
  pub claims : Map ClaimRecord
  pub buckets : Map Bucket
  pub ticks : ℕ
  pub drawn : ℕ

abbrev pub C : Type 0 → Type 0
C A = Exec OauthErrorCode Ceremony A

abbrev pub default_claim_options : ClaimOptions
default_claim_options = record {
  expires_in_seconds = 600;
  initial_interval_seconds = 5;
  max_verification_attempts = 5;
  verification_window_seconds = 600;
  max_starts_per_window = 5;
  start_window_seconds = 3600;
}

-- `{ ...claim, ...changes, version: claim.version + 1 }`
unfoldable pub with_version : ClaimRecord → (ClaimRecord → ClaimRecord) → ClaimRecord
with_version claim changes = record (changes claim) { version = suc claim.version }

-- `[...this.claims.values()].find(...)`
abbrev pub find_claim : (ClaimRecord → Bool) → C (Option ClaimRecord)
find_claim test = gets (λ s. find test (Map.values s.claims))

unfoldable pub find_by_user_code_hash : String → C (Option ClaimRecord)
find_by_user_code_hash hash = find_claim (λ candidate. candidate.user_code_hash == hash)

unfoldable pub find_by_device_code_hash : String → C (Option ClaimRecord)
find_by_device_code_hash hash = find_claim (λ candidate. candidate.device_code_hash == hash)

unfoldable pub find_claim_by_id : String → C (Option ClaimRecord)
find_claim_by_id id = gets (λ s. Map.get id s.claims)

unfoldable pub create_claim : ClaimRecord → C (Unit {0})
create_claim claim s = (ok tt, record s { claims = Map.set claim.id claim s.claims })

-- `stored.version !== previous.version || next.version !== previous.version + 1` refuses.
unfoldable pub may_replace : Option ClaimRecord → ClaimRecord → ClaimRecord → Bool
may_replace none previous next = false
may_replace (some stored) previous next =
    eqb stored.version previous.version && eqb next.version (suc previous.version)

unfoldable pub compare_and_set : ClaimRecord → ClaimRecord → C Bool
compare_and_set previous next s =
    if may_replace (Map.get previous.id s.claims) previous next
    then (ok true, record s { claims = Map.set next.id next s.claims })
    else (ok false, s)

unfoldable pub transition : ClaimRecord → (ClaimRecord → ClaimRecord) → C ClaimRecord
transition current changes = do
  swapped ← compare_and_set current (with_version current changes)
  if swapped then pure (with_version current changes) else do
    refreshed ← find_claim_by_id current.id
    throw (if is_some refreshed then temporarily_unavailable else invalid_grant)

unfoldable pub require_claim : String → C ClaimRecord
require_claim id = do found ← find_claim_by_id id; require found invalid_grant

abbrev pub as_expired : ClaimRecord → ClaimRecord
as_expired claim = record claim { status = expired }

module _ (d : ClaimDeps) where
  unfoldable pub claim_now : C ℕ
  claim_now s = (ok (d.clock s.ticks), record s { ticks = suc s.ticks })

  unfoldable pub next_identifier : String → C String
  next_identifier prefix s = (ok (d.next s.drawn prefix), record s { drawn = suc s.drawn })

  unfoldable pub take_allowance : String → ℕ → ℕ → ℕ → C Bool
  take_allowance key limit window_seconds now s =
      let (allowed, buckets) = take key limit window_seconds now s.buckets in
      (ok allowed, record s { buckets = buckets })

  unfoldable pub expire_if_needed : ClaimRecord → C ClaimRecord
  expire_if_needed claim = do
    at ← claim_now
    if ltb at claim.expires_at || same_claim_status claim.status expired
        then pure claim
        else if same_claim_status claim.status approved && is_some claim.grant_used_at
        then pure claim
        else transition claim as_expired
