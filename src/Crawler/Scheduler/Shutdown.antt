-- ===== src/Crawler/Scheduler/Shutdown.antt =====
-- crawler/scheduler.go: how the goroutines of Run and RunN return once their context is cancelled.
use brawl_stars_guide.Base.{
  ℕ, ◌==◌, if◌then◌else◌, suc, ◌+◌, ◌*◌, ◌≤◌, ◌≡◌, refl, true, ◌⊎◌, inl, inr, List, [], ◌∷◌, ◌++◌,
  arith, ap, sym, ◌∙◌, subst, length, All,
}
use brawl_stars_guide.Storage.Schema.{empty}
use brawl_stars_guide.Crawler.Worker.{RunOutcome, outcome_of}
use brawl_stars_guide.Crawler.Scheduler.{
  Phase, looping, crawling, sleeping, exited, Shared, Round, System, Move, Moves, enters,
  crawl_done, notice_cancel, wake, wake_cancelled, signal, here, next, run_round, run_n_round,
}
use brawl_stars_guide.Crawler.Scheduler.Steps.{
  steps_left, all_steps_left, all_steps_left-middle, all_steps_left-length, QuietMove, Quiet, steps,
  mover, steps_of, left_of, left_of-le, left_of-middle,
}

-- The rounds of Run or those of RunN.
abbrev pub IsLoop : (Shared → RunOutcome → Round) → Type 0
IsLoop round = (round ≡ run_round) ⊎ (round ≡ run_n_round)

run_round-cancelled :
    (s : Shared) (o : RunOutcome)
    → s.cancelled ≡ true
    → ((run_round s o).0.cancelled ≡ true) × (steps_left (run_round s o).1 ≤ 2)
unfolding run_round
run_round-cancelled s o c = ground arith

run_n_round-cancelled :
    (s : Shared) (o : RunOutcome)
    → s.cancelled ≡ true
    → ((run_n_round s o).0.cancelled ≡ true) × (steps_left (run_n_round s o).1 ≤ 2)
unfolding run_n_round
run_n_round-cancelled s o c = ground arith

module _ (round : Shared → RunOutcome → Round) (loop : IsLoop round) where
  round-cancelled :
      (s : Shared) (o : RunOutcome)
      → s.cancelled ≡ true
      → ((round s o).0.cancelled ≡ true) × (steps_left (round s o).1 ≤ 2)
  round-cancelled s o c = elim loop [
    | inl e ↦
        subst (λ r. ((r s o).0.cancelled ≡ true) × (steps_left (r s o).1 ≤ 2)) (sym e)
          (run_round-cancelled s o c)
    | inr e ↦
        subst (λ r. ((r s o).0.cancelled ≡ true) × (steps_left (r s o).1 ≤ 2)) (sym e)
          (run_n_round-cancelled s o c)
  ]

  -- A step takes one from what is left to all, and to the goroutine that makes it.
  abbrev Fewer : {s t : System} → Move round s t → Type 0
  Fewer {s} {t} m =
      (suc (all_steps_left t.workers) ≤ all_steps_left s.workers)
      × ((i : ℕ) → (if mover m == i then 1 else 0) + left_of i t.workers ≤ left_of i s.workers)

  fewer :
      (before after ws vs : List Phase) (p q : Phase)
      → ws ≡ before ++ p ∷ after
      → vs ≡ before ++ q ∷ after
      → suc (steps_left q) ≤ steps_left p
      → (suc (all_steps_left vs) ≤ all_steps_left ws)
        × ((i : ℕ) → (if length before == i then 1 else 0) + left_of i vs ≤ left_of i ws)
  fewer before after ws vs p q e f less = (
    omega (
      arith,
      ap all_steps_left e,
      ap all_steps_left f,
      all_steps_left-middle before after p,
      all_steps_left-middle before after q,
    ),
    λ i. omega (arith, ap (left_of i) e, ap (left_of i) f, left_of-middle i before after p q less),
  )

  step-Fewer :
      {s t : System} (m : Move round s t)
      → s.shared.cancelled ≡ true
      → QuietMove m
      → (t.shared.cancelled ≡ true) × Fewer m
  step-Fewer {s} {t} (enters before after e c' sh f) c q = absurd (cc)
  step-Fewer {s} {t} (crawl_done before after o e sh f) c q =
      let (still, few) = round-cancelled s.shared o c in
      (
        ap (λ z. z.cancelled) sh ∙ still,
        fewer before after s.workers t.workers crawling (round s.shared o).1 e f (omega arith),
      )
  step-Fewer {s} {t} (notice_cancel before after e c' sh f) c q = (
    ap (λ z. z.cancelled) sh ∙ c,
    fewer before after s.workers t.workers looping exited e f (omega arith),
  )
  step-Fewer {s} {t} (wake before after e sh f) c q = (
    ap (λ z. z.cancelled) sh ∙ c,
    fewer before after s.workers t.workers sleeping looping e f (omega arith),
  )
  step-Fewer {s} {t} (wake_cancelled before after e c' sh f) c q = (
    ap (λ z. z.cancelled) sh ∙ c,
    fewer before after s.workers t.workers sleeping exited e f (omega arith),
  )
  step-Fewer {s} {t} (signal sh f) c q = absurd (cc)

  steps-bound :
      {s t : System} (ms : Moves round s t)
      → s.shared.cancelled ≡ true
      → Quiet ms
      → (t.shared.cancelled ≡ true)
        × (steps ms + all_steps_left t.workers ≤ all_steps_left s.workers)
        × ((i : ℕ) → steps_of i ms + left_of i t.workers ≤ left_of i s.workers)
  unfolding steps steps_of
  steps-bound here c q = (c, omega arith, λ i. omega arith)
  steps-bound (next ms m) c (qs, q) =
      let (still, few, each) = steps-bound ms c qs in
      let (yet, less) = step-Fewer m still q in
      (yet, omega (arith, less.0), λ i. omega (arith, each i, less.1 i))

-- The first goroutine that has not returned.
data Survey (ps : List Phase) : Type 0 where
  all_returned : All (λ p. p ≡ exited) ps → Survey ps
  stands :
      (before after : List Phase) (p : Phase)
      → ps ≡ before ++ p ∷ after
      → 1 ≤ steps_left p
      → Survey ps

first_running : (ps : List Phase) → Survey ps
first_running [] = all_returned tt
first_running (looping ∷ ps) = stands [] ps looping refl (omega arith)
first_running (crawling ∷ ps) = stands [] ps crawling refl (omega arith)
first_running (sleeping ∷ ps) = stands [] ps sleeping refl (omega arith)
first_running (exited ∷ ps) = elim (first_running ps) [
  | all_returned h ↦ all_returned (refl, h)
  | stands before after p e some_left ↦
      stands (exited ∷ before) after p (ap (λ l. exited ∷ l) e) some_left
]

-- A step that is not a signal.
abbrev pub Further : (Shared → RunOutcome → Round) → System → Type 0
Further round s = (t : System) × (m : Move round s t) × QuietMove m

further :
    (round : Shared → RunOutcome → Round) (s : System) (before after : List Phase) (p : Phase)
    → s.shared.cancelled ≡ true
    → s.workers ≡ before ++ p ∷ after
    → 1 ≤ steps_left p
    → Further round s
further round s before after looping c e left =
    (record s { workers = before ++ exited ∷ after }, notice_cancel before after e c refl refl, tt)
further round s before after sleeping c e left =
    (record s { workers = before ++ exited ∷ after }, wake_cancelled before after e c refl refl, tt)
further round s before after crawling c e left =
    let o = outcome_of [] empty in
    (
      record { shared = (round s.shared o).0; workers = before ++ (round s.shared o).1 ∷ after },
      crawl_done before after o e refl refl,
      tt,
    )
further round s before after exited c e left = absurd (omega arith)

-- Once their context is cancelled, by a halt, by the count or by a signal, and while no other signal
-- comes, each goroutine of Run or RunN makes at most three steps, and all of them together at most three
-- times as many as there are goroutines, however their rounds interleave and whatever RunOnce returns;
-- and as long as one of them has not returned, a step is possible.
pub shutdown_steps :
    (round : Shared → RunOutcome → Round) {s t : System} (ms : Moves round s t)
    → IsLoop round
    → s.shared.cancelled ≡ true
    → Quiet ms
    → (steps ms ≤ 3 * length s.workers)
      × ((i : ℕ) → steps_of i ms ≤ 3)
      × (All (λ p. p ≡ exited) t.workers ⊎ Further round t)
shutdown_steps round {s} {t} ms loop c quiet =
    let (still, few, each) = steps-bound round loop ms c quiet in
    (
      omega (arith, all_steps_left-length s.workers),
      λ i. omega (arith, each i, left_of-le i s.workers),
      elim (first_running t.workers) [
        | all_returned h ↦ inl h
        | stands before after p e left ↦ inr (further round t before after p still e left)
      ],
    )
