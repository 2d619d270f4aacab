-- ===== src/Crawler/Scheduler/Count.antt =====
-- crawler/scheduler.go: how many targets RunN processes.
use brawl_stars_guide.Base.{
  ℕ, zero, suc, ◌+◌, ◌≤◌, ◌<◌, ◌≡◌, refl, List, [], ◌∷◌, ◌++◌, ℤ, pos, negsuc, neg_part, arith, ap,
  sym, ◌∙◌, subst,
}
use brawl_stars_guide.Crawler.Worker.{RunOutcome}
use brawl_stars_guide.Crawler.Scheduler.{
  Phase, looping, crawling, sleeping, exited, Shared, System, Move, Moves, enters, crawl_done,
  notice_cancel, wake, wake_cancelled, signal, here, next, run_n_round, start_workers, start,
}

abbrev pub weight : Phase → ℕ
weight looping = 1
weight crawling = 1
weight sleeping = 1
weight exited = 0

-- The goroutines that have not returned.
unfoldable pub live : List Phase → ℕ
live [] = 0
live (p ∷ ps) = weight p + live ps

pub live-middle :
    (xs ys : List Phase) (p : Phase) → live (xs ++ p ∷ ys) ≡ weight p + live (xs ++ ys)
unfolding live
live-middle [] ys p = refl
live-middle (x ∷ xs) ys p = omega (arith, live-middle xs ys p)

pub live-start : (n : ℕ) → live (start_workers n) ≡ n
unfolding live start_workers
live-start zero = refl
live-start (suc n) = omega (arith, live-start n)

-- Once the count is used up, a goroutine has returned for it and one for each target beyond it.
abbrev pub Bounded : ℕ → ℤ → ℕ → Type 0
Bounded n (pos zero) running = running + 1 ≤ n
Bounded n (pos (suc k)) running = running ≤ n
Bounded n (negsuc k) running = running + 2 + k ≤ n

Bounded-fewer : (n : ℕ) (r : ℤ) (a b : ℕ) → b ≤ a → Bounded n r a → Bounded n r b
Bounded-fewer n (pos zero) a b h k = omega arith
Bounded-fewer n (pos (suc r)) a b h k = omega arith
Bounded-fewer n (negsuc r) a b h k = omega arith

round-Bounded :
    (n : ℕ) (s : Shared) (o : RunOutcome) (rest : ℕ)
    → Bounded n s.remaining (1 + rest)
    → Bounded n (run_n_round s o).0.remaining (weight (run_n_round s o).1 + rest)
unfolding run_n_round
round-Bounded n s o rest h = ground arith

-- The list of goroutines before and after one of them goes from `p` to `q`.
moved :
    (n : ℕ) (r r' : ℤ) (before after ws vs : List Phase) (p q : Phase)
    → ws ≡ before ++ p ∷ after
    → vs ≡ before ++ q ∷ after
    → (Bounded n r (weight p + live (before ++ after))
        → Bounded n r' (weight q + live (before ++ after)))
    → Bounded n r (live ws)
    → Bounded n r' (live vs)
moved n r r' before after ws vs p q e f change h =
    subst (Bounded n r') (sym (live-middle before after q) ∙ sym (ap live f))
      (change (subst (Bounded n r) (ap live e ∙ live-middle before after p) h))

same : (n k : ℕ) {a b : Shared} → b ≡ a → Bounded n a.remaining k → Bounded n b.remaining k
same n k e h = subst (λ z. Bounded n z.remaining k) (sym e) h

step-Bounded :
    (n : ℕ) {s t : System}
    → Move run_n_round s t
    → Bounded n s.shared.remaining (live s.workers)
    → Bounded n t.shared.remaining (live t.workers)
step-Bounded n {s} {t} (crawl_done before after o e sh f) h =
    moved n s.shared.remaining t.shared.remaining before after s.workers t.workers crawling _ e f
      (λ b.
        subst
          (λ z. Bounded n z.remaining (weight (run_n_round s.shared o).1 + live (before ++ after)))
          (sym sh) (round-Bounded n s.shared o _ b))
      h
step-Bounded n {s} {t} (enters before after e c sh f) h =
    moved n s.shared.remaining t.shared.remaining before after s.workers t.workers looping crawling
      e f (same n _ sh) h
step-Bounded n {s} {t} (notice_cancel before after e c sh f) h =
    moved n s.shared.remaining t.shared.remaining before after s.workers t.workers looping exited e
      f (λ b. same n _ sh (Bounded-fewer n s.shared.remaining _ _ (omega arith) b)) h
step-Bounded n {s} {t} (wake before after e sh f) h =
    moved n s.shared.remaining t.shared.remaining before after s.workers t.workers sleeping looping
      e f (same n _ sh) h
step-Bounded n {s} {t} (wake_cancelled before after e c sh f) h =
    moved n s.shared.remaining t.shared.remaining before after s.workers t.workers sleeping exited e
      f (λ b. same n _ sh (Bounded-fewer n s.shared.remaining _ _ (omega arith) b)) h
step-Bounded n {s} {t} (signal sh f) h =
    subst (λ z. Bounded n z.remaining (live t.workers)) (sym sh)
      (subst (λ z. Bounded n s.shared.remaining (live z)) (sym f) h)

Moves-Bounded :
    (n : ℕ) {s t : System}
    → Moves run_n_round s t
    → Bounded n s.shared.remaining (live s.workers)
    → Bounded n t.shared.remaining (live t.workers)
Moves-Bounded n here h = h
Moves-Bounded n (next ms m) h = step-Bounded n m (Moves-Bounded n ms h)

Bounded-neg : (n : ℕ) (r : ℤ) (a : ℕ) → 1 ≤ n → Bounded n r a → neg_part r < n
Bounded-neg n (pos zero) a one b = omega arith
Bounded-neg n (pos (suc r)) a one b = omega arith
Bounded-neg n (negsuc r) a one b = omega arith

-- RunN with n goroutines counts fewer than n targets beyond its total, under any interleaving of
-- their rounds, whatever RunOnce returns to them and whenever the context is cancelled.
pub run_n_overshoot :
    (n total : ℕ) {t : System}
    → 1 ≤ n
    → 1 ≤ total
    → Moves run_n_round (start n total) t
    → neg_part t.shared.remaining < n
unfolding start
run_n_overshoot n (suc total) {t} one pos_total ms =
    Bounded-neg n t.shared.remaining (live t.workers) one
      (Moves-Bounded n ms (omega (arith, live-start n)))
run_n_overshoot n zero {t} one pos_total ms = absurd (omega arith)
