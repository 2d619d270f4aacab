-- ===== src/Examples/Schedule.antt =====
-- The goroutines of Run and RunN at concrete inputs.
use brawl_stars_guide.Base.{
  length, ◌*◌, ◌⊎◌, ◌+◌, ◌≤◌, ◌<◌, ◌≡◌, refl, true, false, ◌&&◌, not, String, str_eq, codes, [],
  ◌∷◌, Option, some, none, ℤ, pos, neg_part, pos_part, arith, All, inl, if◌then◌else◌, global_halt,
  ℕ,
}
use brawl_stars_guide.Storage.Schema.{success, sampled_out}
use brawl_stars_guide.Crawler.Worker.{RunOutcome, outcome_of}
use brawl_stars_guide.Crawler.Scheduler.{
  System, Shared, Moves, here, next, enters, crawl_done, start, start_workers, run_n_round,
  run_n_switch, run_round, run_switch, count_down, crawling, exited, run_result, looping,
}
use brawl_stars_guide.Crawler.Scheduler.Count.{run_n_overshoot}
use brawl_stars_guide.Crawler.Scheduler.Statistics.{Tally, outcomes, run_counts}
use brawl_stars_guide.Crawler.Scheduler.Finish.{run_n_work, crawls}
use brawl_stars_guide.Crawler.Scheduler.Shutdown.{Further, shutdown_steps}
use brawl_stars_guide.Crawler.Scheduler.Steps.{steps, steps_of}
use brawl_stars_guide.Crawler.Scheduler.Halt.{halts, run_result-halts}
use brawl_stars_guide.Collector.{
  dispatch, dispatch_crawl_once, crawl_settings, crawl_once_system, must_env_int,
}
use brawl_stars_guide.Storage.Connection.{Driver, connected, connect}
use brawl_stars_guide.Collector.Launch.{
  launch, launch_command, must_db_pool, runs_n, ends_at_once, exit_status,
}
use brawl_stars_guide.Collector.Exits.{crawl_exit_status}
use brawl_stars_guide.Collector.Counted.{crawl_once_work}

abbrev crawled : RunOutcome
crawled = outcome_of (codes "ALICE") success

-- The only goroutine reaches the count of one.
abbrev finished : System
finished = record {
  shared = record ((start 1 1).shared) { remaining = pos 0; cancelled = true };
  workers = exited ∷ [];
}

-- The only goroutine is inside RunOnce.
abbrev entered : System
entered = record { shared = (start 1 1).shared; workers = crawling ∷ [] }

unfoldable one_crawl : Moves run_n_round (start 1 1) finished
unfolding start start_workers run_n_round run_n_switch count_down
one_crawl =
    next (next {u = entered} here (enters [] [] refl refl refl refl))
      (crawl_done [] [] crawled refl refl refl)

run_n_overshoot_example : neg_part (pos 0) < 1
unfolding start start_workers run_n_round run_n_switch count_down
run_n_overshoot_example = run_n_overshoot 1 1 {t = finished} (omega arith) (omega arith) one_crawl

run_n_work_example : (1 ≤ crawls one_crawl) × (crawls one_crawl < 2)
unfolding one_crawl
run_n_work_example =
    run_n_work 1 1 one_crawl (omega arith) (omega arith) ((tt, tt), (refl, refl)) (refl, tt)

abbrev one_worker : String → String
one_worker key = if str_eq key "CRAWLER_WORKERS" then "1" else ""

abbrev reads_one : String → Option ℤ
reads_one s = some (pos 1)

unfoldable counted_run :
    Moves run_n_round (crawl_once_system (crawl_settings one_worker reads_one) 1) finished
unfolding start start_workers run_n_round run_n_switch count_down crawl_settings must_env_int
counted_run =
    next (next {u = entered} here (enters [] [] refl refl refl refl))
      (crawl_done [] [] crawled refl refl refl)

crawl_once_work_example :
    (1 ≤ crawls counted_run)
    × (crawls counted_run < 1 + pos_part (crawl_settings one_worker reads_one).workers)
unfolding counted_run dispatch
crawl_once_work_example =
    crawl_once_work one_worker reads_one ("crawl-once" ∷ "1" ∷ []) 1 counted_run refl
      ((tt, tt), (refl, refl)) (refl, tt)

abbrev sampled : RunOutcome
sampled = record crawled {
  result = record { tag = codes "ALICE"; status = sampled_out; battles_new = 0; discoveries = 7 };
}

abbrev fresh : Shared
fresh = record {
  cancelled = false;
  halt_err = none;
  stats = record {
    crawled = 0;
    not_found_count = 0;
    rate_limited_count = 0;
    errors = 0;
    discoveries = 0;
  };
  remaining = pos 5;
}

abbrev one_sampled : System
one_sampled = record {
  shared = record fresh { stats = record (fresh.stats) { errors = 1 } };
  workers = looping ∷ [];
}

unfoldable sampling :
    Moves run_round (record { shared = fresh; workers = crawling ∷ [] }) one_sampled
unfolding run_round run_switch
sampling = next here (crawl_done [] [] sampled refl refl refl)

run_counts_example : Tally fresh.stats one_sampled.shared.stats (outcomes sampling)
run_counts_example = run_counts sampling

-- Two goroutines of Run are inside RunOnce; the API refuses the key to the first, and the second stops.
abbrev refused_key : RunOutcome
refused_key = record crawled { error = some global_halt }

abbrev two_inside : System
two_inside = record { shared = fresh; workers = crawling ∷ crawling ∷ [] }

abbrev halted : Shared
halted = record fresh { cancelled = true; halt_err = some global_halt }

abbrev one_back : System
one_back = record { shared = halted; workers = exited ∷ crawling ∷ [] }

abbrev none_back : System
none_back = record { shared = halted; workers = exited ∷ exited ∷ [] }

abbrev one_enters : System
one_enters = record { shared = (start 1 5).shared; workers = crawling ∷ [] }

abbrev one_halts : System
one_halts = record { shared = halted; workers = exited ∷ [] }

unfoldable last_crawl : Moves run_round one_back none_back
unfolding run_round
last_crawl = next here (crawl_done (exited ∷ []) [] refused_key refl refl refl)

shutdown_steps_example :
    (steps last_crawl ≤ 3 * 2)
    × ((i : ℕ) → steps_of i last_crawl ≤ 3)
    × (All (λ p. p ≡ exited) none_back.workers ⊎ Further run_round none_back)
unfolding last_crawl
shutdown_steps_example = shutdown_steps run_round last_crawl (inl refl) refl (tt, tt)

unfoldable halting : Moves run_round (start 1 5) one_halts
unfolding start start_workers run_round
halting =
    next (next {u = one_enters} here (enters [] [] refl refl refl refl))
      (crawl_done [] [] refused_key refl refl refl)

run_result-halts_example :
    (run_result one_halts ≡ some (if halts halting then some global_halt else none))
    × ((halts halting && not one_halts.shared.cancelled) ≡ false)
run_result-halts_example = run_result-halts run_round 1 5 halting (inl refl) (refl, tt)

run_result_test : run_result one_halts ≡ some (some global_halt)
unfolding run_result
run_result_test = refl

-- A process with a token, one worker, and a database that answers.
abbrev with_token : String → String
with_token key =
    if str_eq key "BRAWLSTARS_API_TOKEN"
    then "secret"
    else if str_eq key "CRAWLER_WORKERS"
    then "1"
    else ""

abbrev answering : Driver
answering = record { parses = λ dsn. true; creates = λ dsn. true; pings = λ dsn. true }

launched : launch with_token reads_one answering ("crawl-once" ∷ "5" ∷ []) ≡ runs_n (start 1 1)
unfolding launch dispatch dispatch_crawl_once launch_command must_db_pool connect crawl_settings
    must_env_int
launched = refl

crawl_exit_status_example :
    (str_eq (with_token "BRAWLSTARS_API_TOKEN") "" ≡ false)
    × (must_db_pool with_token answering ≡ connected)
    × (length (start 1 1).workers ≡ pos_part (crawl_settings with_token reads_one).workers)
    × (1 ≤ length (start 1 1).workers)
    × (exit_status finished ≡ some (if halts one_crawl then 1 else 0))
crawl_exit_status_example =
    crawl_exit_status with_token reads_one answering ("crawl-once" ∷ "5" ∷ []) run_n_round one_crawl
      (inl (launched, refl)) (refl, tt)

-- Without a token, or without a database, nothing crawls.
no_token_test : launch (λ key. "") reads_one answering ("crawl" ∷ []) ≡ ends_at_once
unfolding launch dispatch launch_command
no_token_test = refl

no_database_test :
    launch with_token reads_one (record answering { pings = λ dsn. false }) ("crawl" ∷ [])
    ≡ ends_at_once
unfolding launch dispatch launch_command must_db_pool connect
no_database_test = refl
