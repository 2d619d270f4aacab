-- ===== src/Examples/Startup.antt =====
-- How the two processes start at concrete inputs.
use brawl_stars_guide.Base.{
  ◌≡◌, refl, Bool, true, false, ◌&&◌, String, str_eq, [], ◌∷◌, none, some, pos, if◌then◌else◌,
}
use brawl_stars_guide.Storage.Connection.{Driver, connect}
use brawl_stars_guide.Api.{listen, fatal as api_fatal, start_api}
use brawl_stars_guide.Collector.{
  Migrator, usage, fatal as collector_fatal, crawl_once, migrated, migrate_fatal, run, dispatch,
  dispatch_crawl_once, dispatch_sub, dispatch_collect, run_migrate, migrator_dsn, must_env_int,
  crawl_settings,
}

-- A database that answers, or not.
abbrev driver : Bool → Driver
driver up = record { parses = λ dsn. true; creates = λ dsn. true; pings = λ dsn. up }

-- Only the URL of the database is set.
abbrev with_url : String → String
with_url key = if str_eq key "DATABASE_URL" then "postgres://db" else ""

start_api_test : start_api with_url (driver true) ≡ listen ":8080"
unfolding start_api connect
start_api_test = refl

no_url_test : start_api (λ key. "") (driver true) ≡ api_fatal
unfolding start_api
no_url_test = refl

no_pool_test : start_api with_url (driver false) ≡ api_fatal
unfolding start_api connect
no_pool_test = refl

five_targets_test : dispatch (λ s. none) ("crawl-once" ∷ []) ≡ run (crawl_once 5)
unfolding dispatch dispatch_crawl_once
five_targets_test = refl

zero_targets_test : dispatch (λ s. some (pos 0)) ("crawl-once" ∷ "0" ∷ []) ≡ collector_fatal
unfolding dispatch dispatch_crawl_once
zero_targets_test = refl

no_subcommand_test : dispatch (λ s. none) ("migrate" ∷ []) ≡ usage
unfolding dispatch
no_subcommand_test = refl

no_tag_test : dispatch (λ s. none) ("collect" ∷ "player" ∷ []) ≡ collector_fatal
unfolding dispatch dispatch_sub dispatch_collect
no_tag_test = refl

-- The scheme is replaced in the DSN, and going up meets no change.
abbrev migrator : Migrator
migrator = record {
  replace_first = λ s old new. if str_eq s "postgres://db" then "pgx5://db" else s;
  opens = λ source dsn. str_eq source "file://db/migrations" && str_eq dsn "pgx5://db";
  up_fails = false;
  down_fails = true;
}

run_migrate_test : run_migrate migrator with_url true ≡ migrated
unfolding run_migrate migrator_dsn
run_migrate_test = refl

run_migrate_down_test : run_migrate migrator with_url false ≡ migrate_fatal
unfolding run_migrate migrator_dsn
run_migrate_down_test = refl

default_workers_test : (crawl_settings with_url (λ s. none)).workers ≡ pos 3
unfolding crawl_settings must_env_int
default_workers_test = refl
