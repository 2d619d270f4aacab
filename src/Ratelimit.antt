-- ===== src/Ratelimit.antt =====
-- internal/ratelimit/limiter.go: the fixed-rate pacer. Times and durations are nanoseconds; the zero
-- time is 0. The mutex makes the part of `Wait` before the select one step.
pub mod Spacing
use brawl_stars_guide.Base.{ℕ, ◌+◌, ◌-◌, ◌/◌, Bool, true, false, ltb, if◌then◌else◌, List, [], ◌∷◌}

pub record Limiter : Type 0 where
  pub interval : ℕ
  pub last : ℕ

-- time.Minute
abbrev pub minute : ℕ
minute = 60000000000

-- The callers give a positive rate (`mustEnvInt` refuses others), so the division is defined.
unfoldable pub new : ℕ → Limiter
new rate_per_min = record { interval = minute / rate_per_min; last = 0 }

-- How `Wait` ends: at once or after its timer, or with ctx.Err() if the context ends first.
pub data Outcome : Type 0 where
  granted : Outcome
  ctx_error : Outcome

-- The locked part, at time `now`: the new state and the time to wait.
unfoldable pub reserve : Limiter → ℕ → record { state : Limiter; delay : ℕ }
reserve l now =
    let next = l.last + l.interval in
    if ltb now next
    then record { state = record l { last = next }; delay = next - now }
    else record { state = record l { last = now }; delay = 0 }

-- `done_first` says that ctx.Done() fires before the timer. It is not asked with no delay.
unfoldable pub wait : Limiter → ℕ → Bool → record { state : Limiter; delay : ℕ; outcome : Outcome }
unfolding reserve
wait l now done_first =
    let r = reserve l now in
    record {
      state = r.state;
      delay = r.delay;
      outcome = if ltb 0 r.delay then (if done_first then ctx_error else granted) else granted;
    }

-- Callers one after another, each at its own time: the time of the slot that each one reserves.
unfoldable pub slots : Limiter → List ℕ → List ℕ
slots l [] = []
slots l (now ∷ nows) = (now + (reserve l now).delay) ∷ slots (reserve l now).state nows
