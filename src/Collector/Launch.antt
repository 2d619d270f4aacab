-- ===== src/Collector/Launch.antt =====
-- collector/cmd/collector/main.go: a process from its arguments to its exit status.
use brawl_stars_guide.Base.{ℕ, String, str_eq, Option, none, some, List, ℤ, Error, if◌then◌else◌}
use brawl_stars_guide.Storage.Connection.{Driver, Connection, connected, failed, connect}
use brawl_stars_guide.Crawler.Scheduler.{System, run_result}
use brawl_stars_guide.Collector.{
  Command, crawl_once, crawl, collect_player, seed_brawlers, repair_showdown, migrate_up,
  migrate_down, run, usage, fatal, dispatch, must_env, default_dsn, crawl_settings,
  crawl_once_system, crawl_system,
}

-- What a process comes to: it ends at once with the status 1, it crawls with the goroutines of RunN or
-- of Run, or it runs another command.
pub data Launch : Type 0 where
  ends_at_once : Launch
  runs_n : System → Launch
  runs : System → Launch
  runs_job : Command → Launch

-- mustAPIClient; `none` is log.Fatal.
abbrev pub must_api_client : (String → String) → Option String
must_api_client getenv =
    let token = getenv "BRAWLSTARS_API_TOKEN" in if str_eq token "" then none else some token

-- mustDBPool; `failed` is log.Fatalf.
unfoldable pub must_db_pool : (String → String) → Driver → Connection
must_db_pool getenv d = connect d (must_env getenv "DATABASE_URL" default_dsn)

abbrev pub with_pool : Connection → Launch → Launch
with_pool connected l = l
with_pool (failed x) l = ends_at_once

abbrev pub with_client : Option String → Launch → Launch
with_client none l = ends_at_once
with_client (some token) l = l

-- The client comes before the pool.
abbrev pub with_client_and_pool : (String → String) → Driver → Launch → Launch
with_client_and_pool getenv d l =
    with_client (must_api_client getenv) (with_pool (must_db_pool getenv d) l)

unfoldable pub launch_command : (String → String) → (String → Option ℤ) → Driver → Command → Launch
launch_command getenv atoi d (crawl_once n) =
    with_client_and_pool getenv d (runs_n (crawl_once_system (crawl_settings getenv atoi) n))
launch_command getenv atoi d crawl =
    with_client_and_pool getenv d (runs (crawl_system (crawl_settings getenv atoi)))
launch_command getenv atoi d (collect_player tag) =
    with_client_and_pool getenv d (runs_job (collect_player tag))
launch_command getenv atoi d seed_brawlers = with_client_and_pool getenv d (runs_job seed_brawlers)
launch_command getenv atoi d repair_showdown =
    with_pool (must_db_pool getenv d) (runs_job repair_showdown)
launch_command getenv atoi d migrate_up = runs_job migrate_up
launch_command getenv atoi d migrate_down = runs_job migrate_down

-- `args` are those after the name of the program.
unfoldable pub launch : (String → String) → (String → Option ℤ) → Driver → List String → Launch
launch getenv atoi d args = elim (dispatch atoi args) [
  | usage ↦ ends_at_once
  | fatal ↦ ends_at_once
  | run c ↦ launch_command getenv atoi d c
]

-- The exit status after RunN or Run, once it returns: log.Fatalf for an error.
abbrev pub exit_of : Option (Option Error) → Option ℕ
exit_of none = none
exit_of (some none) = some 0
exit_of (some (some x)) = some 1

unfoldable pub exit_status : System → Option ℕ
exit_status s = exit_of (run_result s)
