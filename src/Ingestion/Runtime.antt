-- ===== src/Ingestion/Runtime.antt =====
-- Functions of the Go library that the ingestors call, as parameters.
use brawl_stars_guide.Base.{ℕ, Text, String, Option}

pub record Runtime : Type 0 where
  pub wide : ℕ → ℕ  -- unicode.ToUpper from the code point 128 on
  pub show_brawler : ℕ → String  -- fmt.Sprintf("BRAWLER_%d", id)
  pub sha256_hex : Text → Text  -- fmt.Sprintf("%x", sha256.Sum256(raw))
  pub parse_time : Text → Option ℕ  -- time.ParseInLocation("20060102T150405.000", s, time.UTC)
  pub format_time : ℕ → Text  -- t.UTC().Format("20060102T150405.000Z")
