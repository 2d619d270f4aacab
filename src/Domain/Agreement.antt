-- ===== src/Domain/Agreement.antt =====
-- domain/buckets.go and domain/priority.go: the two tables of thresholds beside each other.
use brawl_stars_guide.Base.{ℕ, ◌+◌, ◌-◌, ◌≡◌, ◌≤◌, ℤ, ◌≤ℤ◌, arith, if◌then◌else◌, ltb}
use brawl_stars_guide.Domain.{bucket_for_trophies, priority_for_trophies}

-- The lowest priority number of a bucket: 8, 6, 4, 3, 2, 1 for buckets 1 to 6.
abbrev pub bucket_priority : ℕ → ℕ
bucket_priority b = if ltb b 3 then 10 - (b + b) else 7 - b

-- Every trophy count falls in one of the buckets 1 to 6, a larger count never in a lower bucket, and
-- the crawl priority is the one of its bucket: 8, 6, 4, 3, 2 and 1 for the buckets 1 to 6.
pub bucket_and_priority :
    (a b : ℤ)
    → a ≤ℤ b
    → (1 ≤ bucket_for_trophies a)
      × (bucket_for_trophies a ≤ bucket_for_trophies b)
      × (bucket_for_trophies b ≤ 6)
      × (priority_for_trophies a ≡ bucket_priority (bucket_for_trophies a))
unfolding bucket_for_trophies priority_for_trophies
bucket_and_priority a b h = ground arith
