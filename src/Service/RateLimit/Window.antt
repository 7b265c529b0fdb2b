-- ===== src/Service/RateLimit/Window.antt =====
-- How many requests one window lets through.
use warden_md.Service.RateLimit.{Bucket, opens_window, take}
use warden_md.Common.{
  leb, if◌then◌else◌, leb→lt, Bool-cases, length, All, ℕ, suc, ◌+◌, ◌-◌, ◌*◌, ◌≤◌, ◌<◌, String, ◌≡◌,
  refl, inl, inr, some, List, [], ◌∷◌, arith, eq_refl,
}
use warden_md.Common.Map
use warden_md.Common.Map.{Map, get-set}

-- The answers to requests for one key at the given times.
unfoldable pub takes : String → ℕ → ℕ → List ℕ → Map Bucket → ℕ × Map Bucket
takes key limit window_seconds [] buckets = (0, buckets)
takes key limit window_seconds (now ∷ times) buckets =
    let (allowed, after) = take key limit window_seconds now buckets in
    let (rest, final) = takes key limit window_seconds times after in
    (if allowed then suc rest else rest, final)

-- Within the window of a bucket exactly the requests up to the limit are let through: of `n`
-- requests at times before the end of the window, the smaller of `n` and what is left of the limit.
pub window_bound :
    (key : String) (limit window_seconds start count : ℕ) (times : List ℕ) (buckets : Map Bucket)
    → 1 ≤ limit
    → count ≤ limit
    → Map.get key buckets ≡ some (record { started_at = start; count = count })
    → All (λ now. now < start + window_seconds * 1000) times
    → (takes key limit window_seconds times buckets).0
      ≡ (if leb (length times) (limit - count) then length times else limit - count)
unfolding takes take opens_window
window_bound key limit w start count [] buckets positive below found early = ground arith
window_bound key limit w start count (now ∷ times) buckets positive below found (early, rest) =
    elim (Bool-cases (leb limit count)) [
      | inl full ↦ ground (
        arith,
        full,
        found,
        positive,
        below,
        early,
        window_bound key limit w start count times buckets positive below found rest,
      )
      | inr room ↦ ground (
        arith,
        room,
        found,
        positive,
        below,
        early,
        window_bound key limit w start (suc count) times
            (Map.set key (record { started_at = start; count = suc count }) buckets) positive
            (omega (arith, leb→lt limit count room))
            (rw
              (
                get-set key key (record { started_at = start; count = suc count }) buckets,
                eq_refl key,
              )
              refl)
            rest,
      )
    ]
