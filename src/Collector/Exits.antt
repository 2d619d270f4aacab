-- ===== src/Collector/Exits.antt =====
-- collector/cmd/collector/main.go: the exit status of the commands that crawl.
use brawl_stars_guide.Base.{
  ℕ, zero, suc, ◌≡◌, ◌≤◌, refl, Bool, true, false, ◌⊎◌, inl, inr, String, str_eq, Option, none,
  some, List, ℤ, pos_part, arith, ap, sym, ◌∙◌, subst, length, All, global_halt, if◌then◌else◌,
}
use brawl_stars_guide.Storage.Connection.{Driver, Connection, connected, failed}
use brawl_stars_guide.Storage.Crawl.{is_some}
use brawl_stars_guide.Crawler.Worker.{RunOutcome}
use brawl_stars_guide.Crawler.Scheduler.{
  Shared, Round, System, Moves, run_round, run_n_round, exited, start, start_workers, run_result,
}
use brawl_stars_guide.Crawler.Scheduler.Shutdown.{IsLoop}
use brawl_stars_guide.Crawler.Scheduler.Halt.{halts, run_result-halts}
use brawl_stars_guide.Collector.{
  Dispatch, run, usage, fatal, Command, crawl_once, crawl, collect_player, seed_brawlers,
  repair_showdown, migrate_up, migrate_down, dispatch, crawl_settings,
}
use brawl_stars_guide.Collector.Settings.{crawl_settings_pos}
use brawl_stars_guide.Collector.Launch.{
  Launch, runs_n, runs, ends_at_once, launch, launch_command, must_db_pool, must_api_client,
  with_pool, with_client, with_client_and_pool, exit_of, exit_status,
}

-- The process crawls from the system in the loops of RunN or of Run.
abbrev pub LaunchesLoop : Launch → (Shared → RunOutcome → Round) → System → Type 0
LaunchesLoop l round s = (l ≡ runs_n s) × (round ≡ run_n_round) ⊎ (l ≡ runs s) × (round ≡ run_round)

-- The system that a process crawls from.
abbrev crawls_from : Launch → Option System
crawls_from (runs_n s) = some s
crawls_from (runs s) = some s
crawls_from _ = none

module _ (getenv : String → String) (atoi : String → Option ℤ) (d : Driver) where
  -- What a crawling process has got past, and where its scheduler starts.
  abbrev Begun : System → Type 0
  Begun s =
      (str_eq (getenv "BRAWLSTARS_API_TOKEN") "" ≡ false)
      × (must_db_pool getenv d ≡ connected)
      × ((total : ℕ) × (s ≡ start (pos_part (crawl_settings getenv atoi).workers) total))

  pool-crawls :
      (c : Connection) (l : Launch) (s : System)
      → crawls_from (with_pool c l) ≡ some s
      → (c ≡ connected) × (crawls_from l ≡ some s)
  pool-crawls connected l s e = (refl, e)
  pool-crawls (failed x) l s e = absurd (cc)

  client-crawls :
      (l : Launch) (s : System)
      → crawls_from (with_client_and_pool getenv d l) ≡ some s
      → (str_eq (getenv "BRAWLSTARS_API_TOKEN") "" ≡ false)
        × (must_db_pool getenv d ≡ connected)
        × (crawls_from l ≡ some s)
  client-crawls l s e =
      let (token, rest) = has_client (must_api_client getenv) _ s e in
      let (pool, same) = pool-crawls (must_db_pool getenv d) l s rest in
      (token_set token, pool, same)
    where
      has_client :
          (c : Option String) (l' : Launch) (s' : System)
          → crawls_from (with_client c l') ≡ some s'
          → (is_some c ≡ true) × (crawls_from l' ≡ some s')
      has_client none l' s' h = absurd (cc)
      has_client (some token) l' s' h = (refl, h)

      token_set :
          is_some (must_api_client getenv) ≡ true
          → str_eq (getenv "BRAWLSTARS_API_TOKEN") "" ≡ false
      token_set h = ground arith

  command-Begun :
      (c : Command) (s : System) → crawls_from (launch_command getenv atoi d c) ≡ some s → Begun s
  unfolding launch_command
  command-Begun (crawl_once n) s e =
      let (token, pool, same) = client-crawls _ s e in (token, pool, (n, ground arith))
  command-Begun crawl s e =
      let (token, pool, same) = client-crawls _ s e in (token, pool, (0, ground arith))
  command-Begun (collect_player tag) s e =
      let (token, pool, same) = client-crawls _ s e in absurd (cc)
  command-Begun seed_brawlers s e = let (token, pool, same) = client-crawls _ s e in absurd (cc)
  command-Begun repair_showdown s e =
      let (pool, same) = pool-crawls (must_db_pool getenv d) _ s e in absurd (cc)
  command-Begun migrate_up s e = absurd (cc)
  command-Begun migrate_down s e = absurd (cc)

  launch-Begun :
      (args : List String) (s : System) → crawls_from (launch getenv atoi d args) ≡ some s → Begun s
  unfolding launch
  launch-Begun args s = go (dispatch atoi args)
    where
      go :
          (r : Dispatch)
          → crawls_from (elim r [
            | usage ↦ ends_at_once
            | fatal ↦ ends_at_once
            | run c ↦ launch_command getenv atoi d c
          ])
            ≡ some s
          → Begun s
      go usage e = absurd (cc)
      go fatal e = absurd (cc)
      go (run c) e = command-Begun c s e

launched-IsLoop :
    (l : Launch) (round : Shared → RunOutcome → Round) (s : System)
    → LaunchesLoop l round s
    → (crawls_from l ≡ some s) × IsLoop round
launched-IsLoop l round s (inl (e, r)) = (ap crawls_from e, inr r)
launched-IsLoop l round s (inr (e, r)) = (ap crawls_from e, inl r)

length-start_workers : (n : ℕ) → length (start_workers n) ≡ n
unfolding start_workers
length-start_workers zero = refl
length-start_workers (suc n) = omega (arith, length-start_workers n)

started_workers : (n total : ℕ) → length (start n total).workers ≡ n
unfolding start
started_workers n total = length-start_workers n

exits :
    (halted : Bool) (t : System)
    → run_result t ≡ some (if halted then some global_halt else none)
    → exit_status t ≡ some (if halted then 1 else 0)
unfolding exit_status
exits true t e = ap exit_of e
exits false t e = ap exit_of e

-- A process that crawls, with crawl-once or crawl, has a token and a database that answers, and starts
-- the configured number of goroutines, of which there is one at least. When they have returned, it
-- exits with the status 1 if some RunOnce returned ErrGlobalHalt, and with 0 otherwise, also where
-- goroutines ended on other errors.
pub crawl_exit_status :
    (getenv : String → String) (atoi : String → Option ℤ) (d : Driver) (args : List String)
    (round : Shared → RunOutcome → Round) {s t : System} (ms : Moves round s t)
    → LaunchesLoop (launch getenv atoi d args) round s
    → All (λ p. p ≡ exited) t.workers
    → (str_eq (getenv "BRAWLSTARS_API_TOKEN") "" ≡ false)
      × (must_db_pool getenv d ≡ connected)
      × (length s.workers ≡ pos_part (crawl_settings getenv atoi).workers)
      × (1 ≤ length s.workers)
      × (exit_status t ≡ some (if halts ms then 1 else 0))
crawl_exit_status getenv atoi d args round {s} {t} ms launched returned =
    let (from, loop) = launched-IsLoop _ round s launched in
    let (token, pool, (total, begun)) = launch-Begun getenv atoi d args s from in
    let workers = pos_part (crawl_settings getenv atoi).workers in
    let started : length s.workers ≡ workers =
      ap (λ z. length z.workers) begun ∙ started_workers workers total in
    (
      token,
      pool,
      started,
      omega (arith, (crawl_settings_pos getenv atoi).0),
      exits (halts ms) t (
          subst
            (λ z.
              (m : Moves round z t)
              → run_result t ≡ some (if halts m then some global_halt else none))
            (sym begun) (λ m. (run_result-halts round workers total m loop returned).0) ms),
    )
