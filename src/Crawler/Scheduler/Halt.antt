-- ===== src/Crawler/Scheduler/Halt.antt =====
-- crawler/scheduler.go: what Run and RunN return.
use brawl_stars_guide.Base.{
  ◌≡◌, refl, Bool, true, false, ◌||◌, ◌&&◌, not, List, [], ◌∷◌, Option, none, some, Error,
  global_halt, arith, sym, subst, All, if◌then◌else◌, ℕ, inl, inr,
}
use brawl_stars_guide.Crawler.Worker.{RunOutcome}
use brawl_stars_guide.Crawler.Scheduler.{
  Phase, exited, Shared, Round, System, Moves, enters, crawl_done, notice_cancel, wake,
  wake_cancelled, signal, here, next, run_round, run_n_round, start, run_result, all_exited,
}
use brawl_stars_guide.Crawler.Scheduler.Shutdown.{IsLoop}

abbrev is_halt : Option Error → Bool
is_halt (some global_halt) = true
is_halt _ = false

-- A RunOnce of the run returned ErrGlobalHalt.
unfoldable pub halts : {round : Shared → RunOutcome → Round} {s t : System} → Moves round s t → Bool
halts here = false
halts (next ms (enters before after e c sh f)) = halts ms
halts (next ms (crawl_done before after o e sh f)) = halts ms || is_halt o.error
halts (next ms (notice_cancel before after e c sh f)) = halts ms
halts (next ms (wake before after e sh f)) = halts ms
halts (next ms (wake_cancelled before after e c sh f)) = halts ms
halts (next ms (signal sh f)) = halts ms

abbrev halt_of : Bool → Option Error
halt_of halted = if halted then some global_halt else none

-- What is shared once a halt has come, or not.
record Halted (halted : Bool) (s : Shared) : Type 0 where
  recorded : s.halt_err ≡ halt_of halted
  stops : halted ≡ true → s.cancelled ≡ true

run_round-Halted :
    (h : Bool) (s : Shared) (o : RunOutcome)
    → Halted h s
    → Halted (h || is_halt o.error) (run_round s o).0
unfolding run_round
run_round-Halted h s o k = record {
  recorded = ground (arith, k.recorded);
  stops = ground (arith, k.recorded, k.stops);
}

run_n_round-Halted :
    (h : Bool) (s : Shared) (o : RunOutcome)
    → Halted h s
    → Halted (h || is_halt o.error) (run_n_round s o).0
unfolding run_n_round
run_n_round-Halted h s o k = record {
  recorded = ground (arith, k.recorded);
  stops = ground (arith, k.recorded, k.stops);
}

module _ (round : Shared → RunOutcome → Round) (loop : IsLoop round) where
  round-Halted :
      (h : Bool) (s : Shared) (o : RunOutcome)
      → Halted h s
      → Halted (h || is_halt o.error) (round s o).0
  round-Halted h s o k = elim loop [
    | inl e ↦
        subst (λ r. Halted (h || is_halt o.error) (r s o).0) (sym e) (run_round-Halted h s o k)
    | inr e ↦
        subst (λ r. Halted (h || is_halt o.error) (r s o).0) (sym e) (run_n_round-Halted h s o k)
  ]

  Moves-Halted :
      {s t : System} (ms : Moves round s t) → Halted false s.shared → Halted (halts ms) t.shared
  unfolding halts
  Moves-Halted here k = k
  Moves-Halted (next {t} ms (enters before after e c sh f)) k =
      subst (Halted (halts ms)) (sym sh) (Moves-Halted ms k)
  Moves-Halted (next {t} ms (crawl_done before after o e sh f)) k =
      subst (Halted (halts ms || is_halt o.error)) (sym sh)
        (round-Halted (halts ms) t.shared o (Moves-Halted ms k))
  Moves-Halted (next ms (notice_cancel before after e c sh f)) k =
      subst (Halted (halts ms)) (sym sh) (Moves-Halted ms k)
  Moves-Halted (next ms (wake before after e sh f)) k =
      subst (Halted (halts ms)) (sym sh) (Moves-Halted ms k)
  Moves-Halted (next ms (wake_cancelled before after e c sh f)) k =
      subst (Halted (halts ms)) (sym sh) (Moves-Halted ms k)
  Moves-Halted (next {t} ms (signal sh f)) k =
      let kept = Moves-Halted ms k in
      subst (Halted (halts ms)) (sym sh) (record { recorded = kept.recorded; stops = λ h. refl })

all_exited-All : (ps : List Phase) → All (λ p. p ≡ exited) ps → all_exited ps ≡ true
all_exited-All [] h = refl
all_exited-All (p ∷ ps) h = rw h.0 (all_exited-All ps h.1)

-- When its goroutines have returned, Run or RunN returns ErrGlobalHalt if some RunOnce of the run
-- returned it, and nil otherwise, however the rounds interleave; a halt has cancelled the context.
pub run_result-halts :
    (round : Shared → RunOutcome → Round) (n total : ℕ) {t : System}
    (ms : Moves round (start n total) t)
    → IsLoop round
    → All (λ p. p ≡ exited) t.workers
    → (run_result t ≡ some (if halts ms then some global_halt else none))
      × ((halts ms && not t.shared.cancelled) ≡ false)
unfolding run_result start
run_result-halts round n total {t} ms loop returned =
    let k = Moves-Halted round loop ms (record { recorded = refl; stops = λ h. cc }) in
    let done = all_exited-All t.workers returned in (cc (done, k.recorded), ground (arith, k.stops))
