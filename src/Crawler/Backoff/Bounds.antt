-- ===== src/Crawler/Backoff/Bounds.antt =====
-- crawler/worker.go: the re-crawl intervals and the backoff.
use brawl_stars_guide.Base.{ℕ, suc, ◌*◌, ◌^◌, ◌≤◌, ◌≡◌, ◌⊎◌, ℤ, pos, negsuc, ◌≤ℤ◌, arith, min}
use brawl_stars_guide.Domain.{priority_for_trophies}
use brawl_stars_guide.Crawler.Backoff.{
  hour, base_interval, max_backoff, int64_end, backoff_duration,
}

-- What the conversion of a float64 beyond the int64 range may give: with two's complement hardware
-- a negative number (amd64) or the largest int64 (arm64), and so nothing from 0 to seven days.
abbrev pub IsSaturating : (ℕ → ℤ) → Type 0
IsSaturating to_int64 =
    (d : ℕ) → int64_end ≤ d → (to_int64 d ≤ℤ negsuc 0) ⊎ (pos (suc max_backoff) ≤ℤ to_int64 d)

-- The backoff is never above seven days, also for a negative count of failures and whatever the
-- machine's conversion of a large float64 gives.
pub backoff_capped :
    (to_int64 : ℕ → ℤ) (base : ℕ) (n : ℤ) → backoff_duration to_int64 base n ≤ max_backoff
unfolding backoff_duration
backoff_capped to_int64 base n = ground arith

-- After k ≥ 0 failures the backoff is min(2^k * base, 7 days), as its comment says, on a machine whose
-- conversion saturates or wraps to a negative number.
pub backoff-eq-min :
    (to_int64 : ℕ → ℤ) (base k : ℕ)
    → IsSaturating to_int64
    → backoff_duration to_int64 base (pos k) ≡ min (2 ^ k * base) max_backoff
unfolding backoff_duration
backoff-eq-min to_int64 base k sat = ground (arith, sat (base * 2 ^ k))

-- A player with more trophies is never crawled less often, and every interval is between 4 and 72
-- hours.
pub base_interval_antitone :
    (a b : ℤ)
    → a ≤ℤ b
    → (4 * hour ≤ base_interval (priority_for_trophies b))
      × (base_interval (priority_for_trophies b) ≤ base_interval (priority_for_trophies a))
      × (base_interval (priority_for_trophies a) ≤ 72 * hour)
unfolding base_interval priority_for_trophies
base_interval_antitone a b h = ground arith
