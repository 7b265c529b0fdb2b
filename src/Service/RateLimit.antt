-- ===== src/Service/RateLimit.antt =====
-- packages/service/src/rate-limit.ts: `FixedWindowRateLimiter`.
pub mod Window
use warden_md.Common.{
  ltb, leb, if◌then◌else◌, ℕ, suc, ◌+◌, ◌*◌, String, Bool, true, false, Option, none, some,
}
use warden_md.Common.Map
use warden_md.Common.Map.{Map}

pub record Bucket : Type 0 where
  pub started_at : ℕ
  pub count : ℕ

-- `!existing || now - existing.startedAt >= windowMilliseconds`, the difference being an integer
-- that may be negative.
unfoldable pub opens_window : Option Bucket → ℕ → ℕ → Bool
opens_window none window_milliseconds now = true
opens_window (some existing) window_milliseconds now =
    leb (existing.started_at + window_milliseconds) now

abbrev pub count_of : Option Bucket → ℕ
count_of none = 0
count_of (some existing) = existing.count

abbrev pub started_of : Option Bucket → ℕ
started_of none = 0
started_of (some existing) = existing.started_at

unfoldable pub take : String → ℕ → ℕ → ℕ → Map Bucket → Bool × Map Bucket
take key limit window_seconds now buckets =
    let existing = Map.get key buckets in
    if ltb limit 1
    then (false, buckets)
    else if opens_window existing (window_seconds * 1000) now
    then (true, Map.set key (record { started_at = now; count = 1 }) buckets)
    else if leb limit (count_of existing)
    then (false, buckets)
    else (
      true,
      Map.set key (record { started_at = started_of existing; count = suc (count_of existing) })
          buckets,
    )
