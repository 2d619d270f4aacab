-- ===== src/Crawler/Scheduler/Steps.antt =====
-- crawler/scheduler.go: the steps that goroutines make, and those they have left after a cancellation.
use brawl_stars_guide.Base.{
  ℕ, zero, ◌==◌, if◌then◌else◌, suc, ◌+◌, ◌*◌, ◌≤◌, ◌≡◌, refl, true, false, List, [], ◌∷◌, ◌++◌,
  arith, length,
}
use brawl_stars_guide.Crawler.Worker.{RunOutcome}
use brawl_stars_guide.Crawler.Scheduler.{
  Phase, looping, crawling, sleeping, exited, Shared, Round, System, Move, Moves, enters,
  crawl_done, notice_cancel, wake, wake_cancelled, signal, here, next,
}

-- The steps that a goroutine may still make after a cancellation.
abbrev pub steps_left : Phase → ℕ
steps_left exited = 0
steps_left looping = 1
steps_left sleeping = 2
steps_left crawling = 3

unfoldable pub all_steps_left : List Phase → ℕ
all_steps_left [] = 0
all_steps_left (p ∷ ps) = steps_left p + all_steps_left ps

pub all_steps_left-middle :
    (xs ys : List Phase) (p : Phase)
    → all_steps_left (xs ++ p ∷ ys) ≡ steps_left p + all_steps_left (xs ++ ys)
unfolding all_steps_left
all_steps_left-middle [] ys p = refl
all_steps_left-middle (x ∷ xs) ys p = omega (arith, all_steps_left-middle xs ys p)

steps_left-le : (p : Phase) → steps_left p ≤ 3
steps_left-le exited = omega arith
steps_left-le looping = omega arith
steps_left-le sleeping = omega arith
steps_left-le crawling = omega arith

pub all_steps_left-length : (ps : List Phase) → all_steps_left ps ≤ 3 * length ps
unfolding all_steps_left
all_steps_left-length [] = omega arith
all_steps_left-length (p ∷ ps) = omega (arith, steps_left-le p, all_steps_left-length ps)

-- No signal arrives.
abbrev pub QuietMove :
    {round : Shared → RunOutcome → Round} {s t : System} → Move round s t → Type 0
QuietMove (enters before after e c sh f) = Unit
QuietMove (crawl_done before after o e sh f) = Unit
QuietMove (notice_cancel before after e c sh f) = Unit
QuietMove (wake before after e sh f) = Unit
QuietMove (wake_cancelled before after e c sh f) = Unit
QuietMove (signal sh f) = true ≡ false

abbrev pub Quiet : {round : Shared → RunOutcome → Round} {s t : System} → Moves round s t → Type 0
Quiet here = Unit
Quiet (next ms m) = Quiet ms × QuietMove m

unfoldable pub steps : {round : Shared → RunOutcome → Round} {s t : System} → Moves round s t → ℕ
steps here = 0
steps (next ms m) = suc (steps ms)

-- The index of the goroutine that moves.
abbrev pub mover : {round : Shared → RunOutcome → Round} {s t : System} → Move round s t → ℕ
mover (enters before after e c sh f) = length before
mover (crawl_done before after o e sh f) = length before
mover (notice_cancel before after e c sh f) = length before
mover (wake before after e sh f) = length before
mover (wake_cancelled before after e c sh f) = length before
mover (signal sh f) = 0

-- The steps of the goroutine with the index.
unfoldable pub steps_of :
    {round : Shared → RunOutcome → Round} {s t : System} → ℕ → Moves round s t → ℕ
steps_of i here = 0
steps_of i (next ms m) = (if mover m == i then 1 else 0) + steps_of i ms

-- The steps left to the goroutine with the index.
unfoldable pub left_of : ℕ → List Phase → ℕ
left_of i [] = 0
left_of zero (p ∷ ps) = steps_left p
left_of (suc i) (p ∷ ps) = left_of i ps

pub left_of-le : (i : ℕ) (ps : List Phase) → left_of i ps ≤ 3
unfolding left_of
left_of-le i [] = omega arith
left_of-le zero (p ∷ ps) = steps_left-le p
left_of-le (suc i) (p ∷ ps) = left_of-le i ps

-- One goroutine goes from `p` to `q`.
pub left_of-middle :
    (i : ℕ) (before after : List Phase) (p q : Phase)
    → suc (steps_left q) ≤ steps_left p
    → (if length before == i then 1 else 0) + left_of i (before ++ q ∷ after)
      ≤ left_of i (before ++ p ∷ after)
unfolding left_of
left_of-middle zero [] after p q less = omega arith
left_of-middle (suc i) [] after p q less = grind arith
left_of-middle zero (x ∷ before) after p q less = grind arith
left_of-middle (suc i) (x ∷ before) after p q less =
    grind (arith, left_of-middle i before after p q less)
