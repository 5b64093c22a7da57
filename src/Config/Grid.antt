-- ===== src/Config/Grid.antt =====
-- Where the wake grid of config.go puts a check-in.
use re_terminal_eink_signage.Base.{
  ℕ, ◌+◌, ◌-◌, ◌*◌, ◌/◌, ◌%◌, ◌^◌, ◌≤◌, ◌<◌, ◌≡◌, ◌⊎◌, inl, inr, ◌&&◌, arith, ltb, if◌then◌else◌,
}
use re_terminal_eink_signage.Config.Wake.{
  unix, grid_offset_seconds, min_wake_seconds, max_wake_seconds, seconds_until_next_boundary,
  clamp_wake_seconds,
}

next_multiple : (n k : ℕ) → 0 < k → (n < (n / k + 1) * k) × ((n / k + 1) * k ≤ n + k)
next_multiple n k h = grind arith

settle : ℕ → ℕ → ℕ → ℕ
settle u interval p =
    let d = p + grid_offset_seconds - u in
    (if ltb d min_wake_seconds && ltb min_wake_seconds interval then d + interval else d) % 2 ^ 32

-- From the next grid point p after u, the check-in is on p or one interval later.
settle_lem :
    (u interval p : ℕ)
    → 0 < interval
    → interval + interval < 2 ^ 32
    → grid_offset_seconds ≤ u
    → u - grid_offset_seconds < p
    → p ≤ u - grid_offset_seconds + interval
    → let d = settle u interval p in
      ((u + d ≡ p + grid_offset_seconds) ⊎ (u + d ≡ p + interval + grid_offset_seconds))
      × (0 < d)
      × (d < interval + min_wake_seconds)
      × (min_wake_seconds < interval → min_wake_seconds ≤ d)
unfolding settle
settle_lem u interval p pos fits late lo hi = ground arith

-- For an interval that is not 0, and its double a uint32, and a time after 00:05 of 1 January 1970:
-- the device wakes when the seconds since 1970 are five minutes past a multiple of the interval,
-- after at most the interval and a minute, and not within a minute if the interval is longer.
pub seconds_until_next_boundary-on_grid :
    (now interval : ℕ)
    → 0 < interval
    → interval + interval < 2 ^ 32
    → grid_offset_seconds ≤ unix now
    → let d = seconds_until_next_boundary now interval in
      ((k : ℕ) × (unix now + d ≡ k * interval + grid_offset_seconds))
      × (0 < d)
      × (d < interval + min_wake_seconds)
      × (min_wake_seconds < interval → min_wake_seconds ≤ d)
unfolding seconds_until_next_boundary settle
seconds_until_next_boundary-on_grid now interval pos fits late =
    let (lo, hi) = next_multiple (unix now - grid_offset_seconds) interval pos in
    let (lands, later, soon, rested) = settle_lem (unix now) interval _ pos fits late lo hi in
    rw chosen (multiple lands, later, soon, rested)
  where
    q : ℕ
    q = (unix now - grid_offset_seconds) / interval + 1

    chosen : seconds_until_next_boundary now interval ≡ settle (unix now) interval (q * interval)
    chosen = ground arith

    multiple :
        (unix now + settle (unix now) interval (q * interval) ≡ q * interval + grid_offset_seconds)
          ⊎ (unix now + settle (unix now) interval (q * interval)
              ≡ q * interval + interval + grid_offset_seconds)
        → (k : ℕ) × (unix now + settle (unix now) interval (q * interval)
            ≡ k * interval + grid_offset_seconds)
    multiple (inl e) = (q, e)
    multiple (inr e) = (q + 1, omega arith)

-- What the device takes of any value is within the firmware's limits, and the value itself if that is.
pub clamp_wake_seconds_bounds :
    (s : ℕ)
    → (min_wake_seconds ≤ clamp_wake_seconds s)
      × (clamp_wake_seconds s ≤ max_wake_seconds)
      × (min_wake_seconds ≤ s → s ≤ max_wake_seconds → clamp_wake_seconds s ≡ s)
unfolding clamp_wake_seconds
clamp_wake_seconds_bounds s = ground arith
