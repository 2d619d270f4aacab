-- ===== src/Domain.antt =====
-- internal/domain: the trophy bucket and the crawl priority of a trophy count.
pub mod Agreement
use brawl_stars_guide.Base.{ℕ, ℤ, pos, ltb_ℤ, leb_ℤ, if◌then◌else◌}

-- `Bucket1` to `Bucket6` are the numbers 1 to 6 (an int16).
unfoldable pub bucket_for_trophies : ℤ → ℕ
bucket_for_trophies trophies =
    if ltb_ℤ trophies (pos 500)
    then 1
    else if ltb_ℤ trophies (pos 2000)
    then 2
    else if ltb_ℤ trophies (pos 10000)
    then 3
    else if ltb_ℤ trophies (pos 20000)
    then 4
    else if ltb_ℤ trophies (pos 40000)
    then 5
    else 6

-- 1 is the highest priority (an int16).
unfoldable pub priority_for_trophies : ℤ → ℕ
priority_for_trophies trophies =
    if leb_ℤ (pos 40000) trophies
    then 1
    else if leb_ℤ (pos 20000) trophies
    then 2
    else if leb_ℤ (pos 10000) trophies
    then 3
    else if leb_ℤ (pos 2000) trophies
    then 4
    else if leb_ℤ (pos 500) trophies
    then 6
    else 8
