-- ===== src/Storage/Sampling/Atomic.antt =====
-- storage/queries/sampling.go: what ClassifyAndSampleTarget leaves, whatever of it fails.
use brawl_stars_guide.Base.{ℕ, ◌≡◌, true, false, Text, List, All, count_where}
use brawl_stars_guide.Storage.Schema.{Target}
use brawl_stars_guide.Storage.Crawl.{has_tag}
use brawl_stars_guide.Storage.Sampling.{Sampled, unclassified}

-- The rows of the player are classified.
abbrev pub IsClassified : Text → List Target → Type 0
IsClassified tag rows = All (λ r. has_tag tag r ≡ true → unclassified r ≡ false) rows

-- How many targets are active.
abbrev pub active_targets : List Target → ℕ
active_targets rows = count_where (λ r. r.is_active) rows

-- What the call leaves when it reports no error: the player is classified, and a rejection has
-- deactivated nobody, the player included.
abbrev pub Committed : Text → List Target → Sampled → List Target → Type 0
Committed tag before s after =
    (s.failed ≡ false)
    × IsClassified tag after
    × (s.out ≡ true → active_targets after ≡ active_targets before)
