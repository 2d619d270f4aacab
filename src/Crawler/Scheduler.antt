-- ===== src/Crawler/Scheduler.antt =====
-- crawler/scheduler.go: the goroutines of Run and RunN as an interleaving of the rounds of their loops.
pub mod Count
pub mod Statistics
pub mod Finish
pub mod Steps
pub mod Shutdown
pub mod Halt
use brawl_stars_guide.Base.{
  ℕ, zero, suc, ◌+◌, ◌≡◌, Bool, true, false, List, [], ◌∷◌, ◌++◌, Option, none, some, ℤ, pos,
  negsuc, leb_ℤ, Error, global_halt, no_rows, api_error, other, if◌then◌else◌, Result, ok, err,
}
use brawl_stars_guide.Storage.Schema.{
  Status, success, sampled_out, not_found, rate_limited, error, empty, ownership_lost, shutdown,
  unset,
}
use brawl_stars_guide.Storage.Statement.{Env, World}
use brawl_stars_guide.Storage.Crawl.{queue_depth}
use brawl_stars_guide.Crawler.Worker.{RunOutcome}

-- Where a goroutine stands: at the top of its loop, in RunOnce, in the 30 seconds' sleep, or returned.
pub data Phase : Type 0 where
  looping crawling sleeping exited : Phase

pub record Stats : Type 0 where
  pub crawled : ℕ
  pub not_found_count : ℕ
  pub rate_limited_count : ℕ
  pub errors : ℕ
  pub discoveries : ℕ

-- What the goroutines share.
pub record Shared : Type 0 where
  pub cancelled : Bool
  pub halt_err : Option Error
  pub stats : Stats
  pub remaining : ℤ

abbrev pub Round : Type 0
Round = Shared × Phase

-- haltOnce.Do: only the first halt records its error and cancels the context.
abbrev pub halt_once : Shared → Error → Shared
halt_once s x = elim s.halt_err [
  | some first ↦ s
  | none ↦ record s { halt_err = some x; cancelled = true }
]

-- `if err != nil`: any error ends the goroutine.
abbrev pub on_error : Shared → Error → Round
on_error s global_halt = (halt_once s global_halt, exited)
on_error s no_rows = (s, exited)
on_error s (api_error status path) = (s, exited)
on_error s other = (s, exited)

-- The switch of Run.
unfoldable pub run_switch : Shared → Status → ℕ → Round
run_switch s empty found = (s, sleeping)
run_switch s shutdown found = (s, exited)
run_switch s success found = (
  record s {
    stats = record (s.stats) {
      crawled = suc s.stats.crawled;
      discoveries = s.stats.discoveries + found;
    };
  },
  looping,
)
run_switch s not_found found = (
  record s { stats = record (s.stats) { not_found_count = suc s.stats.not_found_count } },
  looping,
)
run_switch s rate_limited found = (
  record s { stats = record (s.stats) { rate_limited_count = suc s.stats.rate_limited_count } },
  looping,
)
run_switch s _ found =
    (record s { stats = record (s.stats) { errors = suc s.stats.errors } }, looping)

unfoldable pub run_round : Shared → RunOutcome → Round
unfolding run_switch
run_round s o = elim o.error [
  | some x ↦ on_error s x
  | none ↦ run_switch s o.result.status o.result.discoveries
]

abbrev pub pred_ℤ : ℤ → ℤ
pred_ℤ (pos zero) = negsuc 0
pred_ℤ (pos (suc n)) = pos n
pred_ℤ (negsuc n) = negsuc (suc n)

-- atomic.AddInt64(&remaining, -1) <= 0
unfoldable pub count_down : Shared → Round
count_down s =
    let left = pred_ℤ s.remaining in
    if leb_ℤ left (pos 0)
    then (record s { remaining = left; cancelled = true }, exited)
    else (record s { remaining = left }, looping)

-- The switch of RunN and the count after it.
unfoldable pub run_n_switch : Shared → Status → Round
unfolding count_down
run_n_switch s empty = (s, sleeping)
run_n_switch s shutdown = (s, exited)
run_n_switch s _ = count_down s

unfoldable pub run_n_round : Shared → RunOutcome → Round
unfolding run_n_switch
run_n_round s o = elim o.error [ some x ↦ on_error s x | none ↦ run_n_switch s o.result.status ]

pub record System : Type 0 where
  pub shared : Shared
  pub workers : List Phase

-- One step of one goroutine, or a signal. `round` is `run_round` or `run_n_round`. A call of RunOnce
-- may end long after the context was cancelled.
pub data Move (round : Shared → RunOutcome → Round) (s t : System) : Type 0 where
  enters :
      (before after : List Phase)
      → s.workers ≡ before ++ looping ∷ after
      → s.shared.cancelled ≡ false
      → t.shared ≡ s.shared
      → t.workers ≡ before ++ crawling ∷ after
      → Move round s t
  crawl_done :
      (before after : List Phase) (o : RunOutcome)
      → s.workers ≡ before ++ crawling ∷ after
      → t.shared ≡ (round s.shared o).0
      → t.workers ≡ before ++ (round s.shared o).1 ∷ after
      → Move round s t
  notice_cancel :
      (before after : List Phase)
      → s.workers ≡ before ++ looping ∷ after
      → s.shared.cancelled ≡ true
      → t.shared ≡ s.shared
      → t.workers ≡ before ++ exited ∷ after
      → Move round s t
  wake :
      (before after : List Phase)
      → s.workers ≡ before ++ sleeping ∷ after
      → t.shared ≡ s.shared
      → t.workers ≡ before ++ looping ∷ after
      → Move round s t
  wake_cancelled :
      (before after : List Phase)
      → s.workers ≡ before ++ sleeping ∷ after
      → s.shared.cancelled ≡ true
      → t.shared ≡ s.shared
      → t.workers ≡ before ++ exited ∷ after
      → Move round s t
  signal :
      t.shared ≡ record (s.shared) { cancelled = true } → t.workers ≡ s.workers → Move round s t

pub data Moves (round : Shared → RunOutcome → Round) (s : System) : System → Type 0 where
  here : Moves round s s
  next : {t u : System} → Moves round s t → Move round t u → Moves round s u

abbrev pub no_stats : Stats
no_stats = record {
  crawled = 0;
  not_found_count = 0;
  rate_limited_count = 0;
  errors = 0;
  discoveries = 0;
}

unfoldable pub start_workers : ℕ → List Phase
start_workers zero = []
start_workers (suc n) = looping ∷ start_workers n

-- Run and RunN at their start; Run has no use for `total`.
unfoldable pub start : ℕ → ℕ → System
unfolding start_workers
start worker_count total = record {
  shared = record { cancelled = false; halt_err = none; stats = no_stats; remaining = pos total };
  workers = start_workers worker_count;
}

abbrev pub all_exited : List Phase → Bool
all_exited [] = true
all_exited (exited ∷ ps) = all_exited ps
all_exited (_ ∷ ps) = false

-- wg.Wait and the return of haltErr: nothing while a goroutine has not returned.
unfoldable pub run_result : System → Option (Option Error)
run_result s = if all_exited s.workers then some s.shared.halt_err else none

-- What a tick of the statistics goroutine logs.
pub record StatsLine : Type 0 where
  pub counters : Stats
  pub queue_depth : ℕ

-- `depth, _ := queries.QueueDepth(ctx, w.pool)`
abbrev logged_depth : Result ℕ → ℕ
logged_depth (ok n) = n
logged_depth (err x) = 0

unfoldable pub stats_line : Env → Shared → World → StatsLine × World
stats_line e s w =
    let (depth, w') = queue_depth e w in
    (record { counters = s.stats; queue_depth = logged_depth depth }, w')
