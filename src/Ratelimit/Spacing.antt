-- ===== src/Ratelimit/Spacing.antt =====
-- ratelimit/limiter.go: the distances of the slots that `Wait` hands out.
use brawl_stars_guide.Base.{
  ℕ, ◌+◌, ◌*◌, ◌/◌, ◌≤◌, ◌<◌, ◌≡◌, ◌⊎◌, inr, List, [], ◌∷◌, Bool, ◌&&◌, arith, leb, ltb,
  count_where, refl, ◌∙◌, sym, subst,
}
use brawl_stars_guide.Ratelimit.{Limiter, minute, new, reserve, slots}

-- Each slot is at least `gap` after the one before it.
abbrev pub Spaced : ℕ → ℕ → List ℕ → Type 0
Spaced gap from [] = Unit {0}
Spaced gap from (s ∷ ss) = (from + gap ≤ s) × Spaced gap s ss

reserve_slot :
    (l : Limiter) (now : ℕ)
    → ((reserve l now).state.last ≡ now + (reserve l now).delay)
      × (l.last + l.interval ≤ now + (reserve l now).delay)
      × ((reserve l now).state.interval ≡ l.interval)
unfolding reserve
reserve_slot l now = ground arith

-- Whatever times the callers read, in any order, each reserved slot is at least one interval after
-- the slot before it, and the first is at least one interval after `last`.
pub slots-Spaced :
    (l : Limiter) (nows : List ℕ) {gap : ℕ} → gap ≡ l.interval → Spaced gap l.last (slots l nows)
unfolding slots
slots-Spaced l [] h = tt
slots-Spaced l (now ∷ nows) {gap} h =
    let (at, far, same) = reserve_slot l now in
    let rest : Spaced gap (reserve l now).state.last (slots (reserve l now).state nows) =
      slots-Spaced (reserve l now).state nows (h ∙ sym same) in
    (omega arith, subst (λ s. Spaced gap s (slots (reserve l now).state nows)) at rest)

-- The slots from `t` on and before `t + w`.
abbrev pub in_window : ℕ → ℕ → ℕ → Bool
in_window t w s = leb t s && ltb s (t + w)

window_after :
    (gap t w from : ℕ) (ss : List ℕ)
    → Spaced gap from ss
    → t ≤ from
    → (from + count_where (in_window t w) ss * gap < t + w) ⊎ (count_where (in_window t w) ss ≡ 0)
unfolding count_where
window_after gap t w from [] sp h = inr refl
window_after gap t w from (s ∷ ss) sp h = grind (arith, window_after gap t w s ss sp.1)

-- Fewer than `w / gap + 1` of the slots lie in any window of length `w`.
pub window_bound :
    (gap t w from : ℕ) (ss : List ℕ)
    → Spaced gap from ss
    → 0 < w
    → count_where (in_window t w) ss * gap < w + gap
unfolding count_where
window_bound gap t w from [] sp h = grind arith
window_bound gap t w from (s ∷ ss) sp h =
    grind (arith, window_after gap t w s ss sp.1, window_bound gap t w s ss sp.1)

cancel_factor : (n rate gap : ℕ) → n * gap < rate * gap + gap → n ≤ rate
cancel_factor n rate gap h = grind arith

-- A limiter for `rate` requests a minute, where the rate divides the minute's nanoseconds, gives out
-- at most `rate` slots in any minute, however its callers arrive.
pub slots_per_minute :
    (rate t : ℕ) (nows : List ℕ)
    → rate * (minute / rate) ≡ minute
    → count_where (in_window t minute) (slots (new rate) nows) ≤ rate
unfolding new
slots_per_minute rate t nows whole = cancel_factor _ rate (minute / rate) (
    omega (
      arith,
      window_bound (minute / rate) t minute 0 (slots (new rate) nows)
          (slots-Spaced (new rate) nows refl) (omega arith),
    ))
