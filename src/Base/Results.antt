-- ===== src/Base/Results.antt =====
-- Go's errors as values. Wrapping by %w is transparent to errors.Is and errors.As, so an error is
-- what lies at the bottom of its chain.
use Prim.Native.Nat.{ℕ}
use brawl_stars_guide.Base.Texts.{Text}

pub data Error : Type 0 where
  no_rows : Error  -- pgx.ErrNoRows
  api_error : ℕ → Text → Error  -- *apiclient.APIError: status code and path
  global_halt : Error  -- crawler.ErrGlobalHalt
  other : Error  -- any other: network, database, decoding, formatted text

pub data Result {ℓ} (A : Type ℓ) : Type ℓ where
  ok : A → Result A
  err : Error → Result A
