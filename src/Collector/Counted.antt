-- ===== src/Collector/Counted.antt =====
-- collector/cmd/collector/main.go: the command crawl-once from its arguments to its end.
use brawl_stars_guide.Base.{ℕ, ◌+◌, ◌≤◌, ◌<◌, ◌≡◌, String, Option, List, ℤ, pos_part, arith, All}
use brawl_stars_guide.Crawler.Scheduler.{System, Moves, run_n_round, exited}
use brawl_stars_guide.Crawler.Scheduler.Finish.{Undisturbed, crawls, run_n_work}
use brawl_stars_guide.Collector.{crawl_once, run, dispatch, crawl_settings, crawl_once_system}
use brawl_stars_guide.Collector.Settings.{crawl_settings_pos}

dispatch_pos :
    (atoi : String → Option ℤ) (args : List String) (n : ℕ)
    → dispatch atoi args ≡ run (crawl_once n)
    → 1 ≤ n
unfolding dispatch
dispatch_pos atoi args n h = ground arith

-- The command crawl-once, however it was asked for and whatever the environment says: where no signal
-- comes and every RunOnce ends without an error or a shutdown, it has counted, when its goroutines have
-- returned, at least the crawls asked for, and fewer than the number of its workers beyond them.
pub crawl_once_work :
    (getenv : String → String) (atoi : String → Option ℤ) (args : List String) (n : ℕ) {t : System}
    (ms : Moves run_n_round (crawl_once_system (crawl_settings getenv atoi) n) t)
    → dispatch atoi args ≡ run (crawl_once n)
    → Undisturbed ms
    → All (λ p. p ≡ exited) t.workers
    → (n ≤ crawls ms) × (crawls ms < n + pos_part (crawl_settings getenv atoi).workers)
crawl_once_work getenv atoi args n ms asked quiet returned =
    let settings = crawl_settings_pos getenv atoi in
    run_n_work (pos_part (crawl_settings getenv atoi).workers) n ms (omega (arith, settings.0))
      (dispatch_pos atoi args n asked) quiet returned
