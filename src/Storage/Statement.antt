-- ===== src/Storage/Statement.antt =====
-- How the code reaches PostgreSQL through pgx. A statement, or a short transaction, is one step: the
-- transactions of others come before it, it may fail and then changes nothing, and it sees one NOW().
pub mod Keeps
pub mod Ensures
use brawl_stars_guide.Base.{ℕ, suc, Bool, Text, Error, other, Result, ok, err, if◌then◌else◌}
use brawl_stars_guide.Storage.Schema.{Db}

-- What the code does not decide, by the number of the step.
pub record Env : Type 0 where
  pub db_now : ℕ → ℕ  -- NOW() of the database
  pub wall : ℕ → ℕ  -- time.Now() of the process
  pub fails : ℕ → Bool  -- the statement returns an error that is not about rows
  pub commit_fails : ℕ → Bool  -- the COMMIT of a longer transaction fails, which rolls it back
  pub others : ℕ → Db → Db  -- what other workers and processes commit before the step
  pub locked : ℕ → Text → Bool  -- the row of this tag is locked by another transaction
  pub pick : ℕ → ℕ  -- ORDER BY random()
  pub below : ℕ → ℕ → ℕ → Bool  -- rand.Float64() < float64(cap)/float64(seen)

-- The state of a run: the number of the next step, the database, and the counter
-- discoveriesThisCrawl of the battle ingestor in use, which outlives an entry that fails.
pub record World : Type 0 where
  pub step : ℕ
  pub db : Db
  pub discoveries : ℕ

abbrev pub M : Type 0 → Type 0
M A = World → Result A × World

abbrev pub pure : {A : Type 0} → Result A → M A
pure r w = (r, w)

-- A call, and what the code does after an error and after a value.
abbrev pub branch : {A B : Type 0} → (Error → M B) → (A → M B) → Result A × World → Result B × World
branch on_err on_ok (ok a, w) = on_ok a w
branch on_err on_ok (err e, w) = on_err e w

unfoldable pub handle : {A B : Type 0} → M A → (Error → M B) → (A → M B) → M B
handle m on_err on_ok w = branch on_err on_ok (m w)

-- `if err != nil { return …, err }`
infixl 5 ◌>>=◌ ◌>>◌
abbrev pub ◌>>=◌ : {A B : Type 0} → M A → (A → M B) → M B
m >>= f = handle m (λ e. pure (err e)) f

abbrev pub ◌>>◌ : {B : Type 0} → M (Unit {0}) → M B → M B
m >> k = m >>= λ _. k

abbrev pub return : {A : Type 0} → A → M A
return a = pure (ok a)

-- What a statement does to the database at the time NOW().
abbrev pub Statement : Type 0 → Type 0
Statement A = ℕ → Db → Result A × Db

abbrev pub settle : {A : Type 0} → World → Db → Result A × Db → Result A × World
settle w before (ok a, after) = (ok a, record w { step = suc w.step; db = after })
settle w before (err e, after) = (err e, record w { step = suc w.step; db = before })

unfoldable pub exec : {A : Type 0} → Env → Statement A → M A
exec e s w =
    let before = e.others w.step w.db in
    if e.fails w.step
    then (err other, record w { step = suc w.step; db = before })
    else settle w before (s (e.db_now w.step) before)
