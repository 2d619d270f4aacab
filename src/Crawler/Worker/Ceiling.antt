-- ===== src/Crawler/Worker/Ceiling.antt =====
-- crawler/worker.go and ingestion/battle_ingestor.go: the ceiling of active targets and the budget.
use brawl_stars_guide.Base.{
  refl, Text, String, List, text_eq, ◌≡◌, false, pos, ◌≤ℤ◌, ◌<ℤ◌, ok, arith, count_where,
}
use brawl_stars_guide.Storage.Statement.{Env, World, exec, handle}
use brawl_stars_guide.Storage.Sampling.{active_target_count}
use brawl_stars_guide.Ingestion.Discovery.{BattleIngestorConfig, discover_player, try_enqueue}
use brawl_stars_guide.Crawler.Worker.{WorkerConfig, ceiling_config, check_ceiling}

-- What the ingestor gets at the ceiling.
abbrev pub at_ceiling : BattleIngestorConfig
at_ceiling = record { max_discoveries_per_crawl = pos 0 }

-- The flaw of the ceiling: with a ceiling set and reached by the count of active targets, the
-- ingestor gets the budget 0, and with it a discovery of any player but the discoverer goes on to the
-- queue, however many players the crawl has discovered and however small the configured budget is.
pub ceiling_removes_budget :
    (e : Env) (cfg : WorkerConfig) (w v : World) (own tag : Text) (name : String)
    (found : List Text)
    → pos 0 <ℤ cfg.max_active_targets
    → e.fails w.step ≡ false
    → cfg.max_active_targets ≤ℤ pos (count_where (λ r. r.is_active) (e.others w.step w.db).targets)
    → text_eq tag own ≡ false
    → ((check_ceiling e cfg w).0 ≡ ok at_ceiling)
      × (discover_player e (record { discoverer_tag = own; cfg = at_ceiling }) tag name found v
          ≡ try_enqueue e (record { discoverer_tag = own; cfg = at_ceiling }) tag name found v)
unfolding check_ceiling ceiling_config active_target_count exec handle discover_player
ceiling_removes_budget e cfg w v own tag name found set up reached another =
    (ground arith, rw another refl)
