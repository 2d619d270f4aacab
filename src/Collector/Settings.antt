-- ===== src/Collector/Settings.antt =====
-- collector/cmd/collector/main.go: the range of the settings, and the arguments of each command.
use brawl_stars_guide.Base.{
  ℕ, ◌≤◌, ◌≡◌, String, Option, some, List, [], ◌∷◌, ℤ, pos, ◌≤ℤ◌, pos_part, arith,
}
use brawl_stars_guide.Collector.{
  Command, crawl_once, crawl, collect_player, seed_brawlers, repair_showdown, migrate_up,
  migrate_down, must_env_int, crawl_settings,
}

must_env_int_pos :
    (getenv : String → String) (atoi : String → Option ℤ) (key : String) (default : ℤ)
    → pos 1 ≤ℤ default
    → pos 1 ≤ℤ must_env_int getenv atoi key default
unfolding must_env_int
must_env_int_pos getenv atoi key default h = ground arith

-- Whatever the environment says, the crawl commands run with at least one worker, at least one
-- request a minute (so that the limiter's interval is not a division by 0), and a budget, a ceiling
-- and a cap of at least 1: the values 0 that the usage text calls unlimited cannot be had.
pub crawl_settings_pos :
    (getenv : String → String) (atoi : String → Option ℤ)
    → let s = crawl_settings getenv atoi in
      (pos 1 ≤ℤ s.workers)
      × (1 ≤ pos_part s.rate_limit)
      × (pos 1 ≤ℤ s.cfg.max_discoveries_per_crawl)
      × (pos 1 ≤ℤ s.cfg.max_active_targets)
      × (pos 1 ≤ℤ s.cfg.bucket_cap)
unfolding crawl_settings
crawl_settings_pos getenv atoi = (
  must_env_int_pos getenv atoi "CRAWLER_WORKERS" (pos 3) (omega arith),
  ground (arith, must_env_int_pos getenv atoi "CRAWLER_RATE_LIMIT" (pos 80)),
  must_env_int_pos getenv atoi "CRAWLER_MAX_DISCOVERIES_PER_CRAWL" (pos 10) (omega arith),
  must_env_int_pos getenv atoi "CRAWLER_MAX_ACTIVE_TARGETS" (pos 5000) (omega arith),
  must_env_int_pos getenv atoi "CRAWLER_BUCKET_CAP" (pos 750) (omega arith),
)

-- The arguments by which the usage text asks for a command; `itoa` writes a number.
abbrev pub arguments : (ℕ → String) → Command → List String
arguments itoa (crawl_once n) = "crawl-once" ∷ itoa n ∷ []
arguments itoa crawl = "crawl" ∷ []
arguments itoa (collect_player tag) = "collect" ∷ "player" ∷ tag ∷ []
arguments itoa seed_brawlers = "seed" ∷ "brawlers" ∷ []
arguments itoa repair_showdown = "repair" ∷ "showdown" ∷ []
arguments itoa migrate_up = "migrate" ∷ "up" ∷ []
arguments itoa migrate_down = "migrate" ∷ "down" ∷ []

-- A command that can be meant: a count of targets is at least 1, and Atoi reads what Itoa writes of it.
abbrev pub Meant : (String → Option ℤ) → (ℕ → String) → Command → Type 0
Meant atoi itoa (crawl_once n) = (1 ≤ n) × (atoi (itoa n) ≡ some (pos n))
Meant atoi itoa _ = Unit {0}
