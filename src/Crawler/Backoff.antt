-- ===== src/Crawler/Backoff.antt =====
-- crawler/worker.go: baseInterval and backoffDuration. Durations are nanoseconds.
pub mod Bounds
use brawl_stars_guide.Base.{ℕ, suc, ◌*◌, ◌/◌, ◌^◌, ℤ, pos, negsuc, ltb, leb, if◌then◌else◌}

abbrev pub hour : ℕ
hour = 3600000000000

unfoldable pub base_interval : ℕ → ℕ
base_interval priority =
    if leb priority 2
    then 4 * hour
    else if leb priority 4
    then 8 * hour
    else if leb priority 6
    then 24 * hour
    else 72 * hour

-- 7 * 24 * time.Hour
abbrev pub max_backoff : ℕ
max_backoff = 604800000000000

-- 2^63, the first value that an int64 does not hold.
abbrev pub int64_end : ℕ
int64_end = 9223372036854775808

-- time.Duration(float64(base) * math.Pow(2, float64(n))). A base below 2^53 times a power of 2 is
-- exact as a float64, and the conversion truncates. Go leaves open what a conversion of a float64
-- beyond the int64 range gives: `to_int64` is the machine's.
unfoldable pub scaled : (ℕ → ℤ) → ℕ → ℤ → ℤ
scaled to_int64 base (pos k) = let d = base * 2 ^ k in if ltb d int64_end then pos d else to_int64 d
scaled to_int64 base (negsuc k) = pos (base / 2 ^ suc k)

-- if d > maxBackoff || d < 0 { return maxBackoff }
abbrev clamp : ℤ → ℕ
clamp (pos d) = if ltb max_backoff d then max_backoff else d
clamp (negsuc d) = max_backoff

unfoldable pub backoff_duration : (ℕ → ℤ) → ℕ → ℤ → ℕ
unfolding scaled
backoff_duration to_int64 base n = clamp (scaled to_int64 base n)
