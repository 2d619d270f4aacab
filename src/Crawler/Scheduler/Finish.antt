-- ===== src/Crawler/Scheduler/Finish.antt =====
-- crawler/scheduler.go: when the goroutines of RunN return.
use brawl_stars_guide.Base.{
  ℕ, ◌+◌, ◌≤◌, ◌<◌, ◌≡◌, refl, Bool, true, false, Bool-cases, inl, inr, List, [], ◌∷◌, ◌++◌, none,
  ℤ, pos, negsuc, leb_ℤ, pos_part, neg_part, some, arith, ap, sym, ◌∙◌, subst, All,
}
use brawl_stars_guide.Storage.Schema.{Status, shutdown, empty}
use brawl_stars_guide.Crawler.Worker.{RunOutcome}
use brawl_stars_guide.Crawler.Scheduler.{
  Phase, looping, crawling, sleeping, exited, Shared, System, Move, Moves, enters, crawl_done,
  notice_cancel, wake, wake_cancelled, signal, here, next, run_n_round, start,
}
use brawl_stars_guide.Crawler.Scheduler.Count.{
  live, weight, live-middle, live-start, run_n_overshoot,
}

abbrev is_shutdown : Status → Bool
is_shutdown shutdown = true
is_shutdown _ = false

-- No signal, and every RunOnce ends without an error and before a cancellation.
abbrev pub UndisturbedMove : {s t : System} → Move run_n_round s t → Type 0
UndisturbedMove (crawl_done before after o e sh f) =
    (o.error ≡ none) × (is_shutdown o.result.status ≡ false)
UndisturbedMove (enters before after e c sh f) = Unit
UndisturbedMove (notice_cancel before after e c sh f) = Unit
UndisturbedMove (wake before after e sh f) = Unit
UndisturbedMove (wake_cancelled before after e c sh f) = Unit
UndisturbedMove (signal sh f) = true ≡ false

abbrev pub Undisturbed : {s t : System} → Moves run_n_round s t → Type 0
Undisturbed here = Unit
Undisturbed (next ms m) = Undisturbed ms × UndisturbedMove m

-- While targets remain, no goroutine has returned, and nothing is cancelled.
abbrev Running : ℕ → Shared → ℕ → Type 0
Running n s running = leb_ℤ s.remaining (pos 0) ≡ false → (s.cancelled ≡ false) × (running ≡ n)

round-Running :
    (n : ℕ) (s : Shared) (o : RunOutcome) (rest : ℕ)
    → o.error ≡ none
    → is_shutdown o.result.status ≡ false
    → Running n s (1 + rest)
    → Running n (run_n_round s o).0 (weight (run_n_round s o).1 + rest)
unfolding run_n_round
round-Running n s o rest ended on h left = ground (arith, h)

-- The list of goroutines before and after one of them goes from `p` to `q`.
moved :
    (n : ℕ) (a b : Shared) (before after ws vs : List Phase) (p q : Phase)
    → ws ≡ before ++ p ∷ after
    → vs ≡ before ++ q ∷ after
    → (Running n a (weight p + live (before ++ after))
        → Running n b (weight q + live (before ++ after)))
    → Running n a (live ws)
    → Running n b (live vs)
moved n a b before after ws vs p q e f change h =
    subst (Running n b) (sym (live-middle before after q) ∙ sym (ap live f))
      (change (subst (Running n a) (ap live e ∙ live-middle before after p) h))

same : (n k : ℕ) {a b : Shared} → b ≡ a → Running n a k → Running n b k
same n k e h = subst (λ z. Running n z k) (sym e) h

-- What is cancelled has no targets left.
cancelled-Running :
    (n : ℕ) (s : Shared) (a b : ℕ) → s.cancelled ≡ true → Running n s a → Running n s b
cancelled-Running n s a b c h left = ground (arith, h)

step-Running :
    (n : ℕ) {s t : System} (m : Move run_n_round s t)
    → UndisturbedMove m
    → Running n s.shared (live s.workers)
    → Running n t.shared (live t.workers)
step-Running n {s} {t} (crawl_done before after o e sh f) (ended, on) h =
    moved n s.shared t.shared before after s.workers t.workers crawling (run_n_round s.shared o).1 e
      f (λ b. same n _ sh (round-Running n s.shared o (live (before ++ after)) ended on b)) h
step-Running n {s} {t} (enters before after e c sh f) u h =
    moved n s.shared t.shared before after s.workers t.workers looping crawling e f (same n _ sh) h
step-Running n {s} {t} (notice_cancel before after e c sh f) u h =
    same n _ sh (cancelled-Running n s.shared _ _ c h)
step-Running n {s} {t} (wake before after e sh f) u h =
    moved n s.shared t.shared before after s.workers t.workers sleeping looping e f (same n _ sh) h
step-Running n {s} {t} (wake_cancelled before after e c sh f) u h =
    same n _ sh (cancelled-Running n s.shared _ _ c h)
step-Running n {s} {t} (signal sh f) u h = absurd (cc)

Moves-Running :
    (n : ℕ) {s t : System} (ms : Moves run_n_round s t)
    → Undisturbed ms
    → Running n s.shared (live s.workers)
    → Running n t.shared (live t.workers)
Moves-Running n here u h = h
Moves-Running n (next ms m) (us, u) h = step-Running n m u (Moves-Running n ms us h)

live-exited : (ps : List Phase) → All (λ p. p ≡ exited) ps → live ps ≡ 0
unfolding live
live-exited [] h = refl
live-exited (p ∷ ps) h = omega (arith, ap weight h.0, live-exited ps h.1)

run_n_done :
    (n total : ℕ) {t : System} (ms : Moves run_n_round (start n total) t)
    → 1 ≤ n
    → Undisturbed ms
    → All (λ p. p ≡ exited) t.workers
    → leb_ℤ t.shared.remaining (pos 0) ≡ true
unfolding start
run_n_done n total {t} ms one quiet returned =
    elim (Bool-cases (leb_ℤ t.shared.remaining (pos 0))) [
      | inl used ↦ used
      | inr left ↦
          let (on, running) = Moves-Running n ms quiet (λ l. (refl, live-start n)) left in
          absurd (omega (arith, live-exited t.workers returned))
    ]

abbrev ends_crawl : Status → ℕ
ends_crawl empty = 0
ends_crawl shutdown = 0
ends_crawl _ = 1

abbrev crawls_of : RunOutcome → ℕ
crawls_of o = elim o.error [ some x ↦ 0 | none ↦ ends_crawl o.result.status ]

-- The crawls of a run that RunN counts: without an error, of a queue that is not empty.
unfoldable pub crawls : {s t : System} → Moves run_n_round s t → ℕ
crawls here = 0
crawls (next ms (crawl_done before after o e sh f)) = crawls ms + crawls_of o
crawls (next ms (enters before after e c sh f)) = crawls ms
crawls (next ms (notice_cancel before after e c sh f)) = crawls ms
crawls (next ms (wake before after e sh f)) = crawls ms
crawls (next ms (wake_cancelled before after e c sh f)) = crawls ms
crawls (next ms (signal sh f)) = crawls ms

round-crawls :
    (s : Shared) (o : RunOutcome)
    → let t = (run_n_round s o).0 in
      pos_part t.remaining + neg_part s.remaining + crawls_of o
      ≡ pos_part s.remaining + neg_part t.remaining
unfolding run_n_round
round-crawls s o = ground arith

-- What was crawled, `k`, and what is left of the total.
abbrev Balanced : Shared → ℕ → Shared → Type 0
Balanced s k t =
    pos_part t.remaining + neg_part s.remaining + k ≡ pos_part s.remaining + neg_part t.remaining

carried : (s : Shared) (k : ℕ) {a b : Shared} → b ≡ a → Balanced s k a → Balanced s k b
carried s k e h = subst (λ z. Balanced s k z) (sym e) h

Moves-crawls : {s t : System} (ms : Moves run_n_round s t) → Balanced s.shared (crawls ms) t.shared
unfolding crawls
Moves-crawls here = omega arith
Moves-crawls {s} (next {t} ms (crawl_done before after o e sh f)) =
    carried s.shared (crawls ms + crawls_of o) sh
      (omega (arith, round-crawls t.shared o, Moves-crawls ms))
Moves-crawls {s} (next ms (enters before after e c sh f)) =
    carried s.shared (crawls ms) sh (Moves-crawls ms)
Moves-crawls {s} (next ms (notice_cancel before after e c sh f)) =
    carried s.shared (crawls ms) sh (Moves-crawls ms)
Moves-crawls {s} (next ms (wake before after e sh f)) =
    carried s.shared (crawls ms) sh (Moves-crawls ms)
Moves-crawls {s} (next ms (wake_cancelled before after e c sh f)) =
    carried s.shared (crawls ms) sh (Moves-crawls ms)
Moves-crawls {s} (next ms (signal sh f)) = carried s.shared (crawls ms) sh (Moves-crawls ms)

used_up : (r : ℤ) → leb_ℤ r (pos 0) ≡ true → pos_part r ≡ 0
used_up (pos k) h = ground arith
used_up (negsuc k) h = refl

-- Where no signal comes and every RunOnce ends without an error or a shutdown, RunN with n goroutines
-- has, when all of them have returned, counted at least its total of crawls, and fewer than n beyond it,
-- under any interleaving of their rounds.
pub run_n_work :
    (n total : ℕ) {t : System} (ms : Moves run_n_round (start n total) t)
    → 1 ≤ n
    → 1 ≤ total
    → Undisturbed ms
    → All (λ p. p ≡ exited) t.workers
    → (total ≤ crawls ms) × (crawls ms < total + n)
unfolding start
run_n_work n total {t} ms one some_total quiet returned =
    let nothing_left = used_up t.shared.remaining (run_n_done n total ms one quiet returned) in
    let beyond = run_n_overshoot n total one some_total ms in
    let balance : pos_part t.shared.remaining + 0 + crawls ms
        ≡ total + neg_part t.shared.remaining =
      Moves-crawls ms in
    (omega arith, omega arith)
