-- ===== src/Ingestion/Discovery.antt =====
-- ingestion/battle_ingestor.go: the ingestor and discoverPlayer with its budget.
pub mod Budget
use brawl_stars_guide.Base.{
  ℕ, suc, ◌+◌, Bool, true, false, ◌&&◌, Text, text_eq, String, List, [], ◌∷◌, ◌++◌, ℤ, pos, Result,
  ok, err, Error, ltb_ℤ, leb_ℤ, if◌then◌else◌,
}
use brawl_stars_guide.Storage.Statement.{Env, World, M, handle, branch, pure, return}
use brawl_stars_guide.Storage.Players.{enqueue_discovered_player}

pub record BattleIngestorConfig : Type 0 where
  pub max_discoveries_per_crawl : ℤ  -- 0 means no limit

-- The counter discoveriesThisCrawl is in `World`.
pub record BattleIngestor : Type 0 where
  pub discoverer_tag : Text
  pub cfg : BattleIngestorConfig

unfoldable pub new_battle_ingestor : Text → BattleIngestorConfig → M BattleIngestor
new_battle_ingestor tag cfg w =
    (ok (record { discoverer_tag = tag; cfg = cfg }), record w { discoveries = 0 })

-- The budget is used up.
abbrev pub exhausted : BattleIngestorConfig → ℕ → Bool
exhausted cfg n =
    ltb_ℤ (pos 0) cfg.max_discoveries_per_crawl && leb_ℤ cfg.max_discoveries_per_crawl (pos n)

abbrev pub count_discovery : Text → List Text → Bool → M (List Text)
count_discovery tag found true w =
    (ok (found ++ tag ∷ []), record w { discoveries = suc w.discoveries })
count_discovery tag found false w = (ok found, w)

unfoldable pub try_enqueue : Env → BattleIngestor → Text → String → List Text → M (List Text)
try_enqueue e b tag name found =
    handle (enqueue_discovered_player e tag name "battle_discovery" b.discoverer_tag)
      (λ x. return found) (count_discovery tag found)

unfoldable pub discover_player : Env → BattleIngestor → Text → String → List Text → M (List Text)
discover_player e b tag name found w =
    if text_eq tag b.discoverer_tag
    then (ok found, w)
    else if exhausted b.cfg w.discoveries
    then (ok found, w)
    else try_enqueue e b tag name found w
