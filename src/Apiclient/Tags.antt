-- ===== src/Apiclient/Tags.antt =====
-- apiclient/client.go: NormalizeTag and encodedTag. `wide` is unicode.ToUpper on the code points from
-- 128 on, which is a table of the Go library.
use brawl_stars_guide.Base.{
  ℕ, ◌-◌, ◌&&◌, Text, codes, [], ◌∷◌, ◌++◌, map, ltb, leb, ◌==◌, if◌then◌else◌,
}

unfoldable pub to_upper_rune : (ℕ → ℕ) → ℕ → ℕ
to_upper_rune wide c =
    if ltb c 128 then (if leb b'a' c && leb c b'z' then c - 32 else c) else wide c

-- strings.ToUpper
abbrev pub to_upper : (ℕ → ℕ) → Text → Text
to_upper wide = map (to_upper_rune wide)

-- strings.TrimPrefix(t, "#")
unfoldable pub trim_hash : Text → Text
trim_hash [] = []
trim_hash (c ∷ t) = if c == b'#' then t else c ∷ t

unfoldable pub normalize_tag : (ℕ → ℕ) → Text → Text
unfolding trim_hash
normalize_tag wide tag = to_upper wide (trim_hash tag)

unfoldable pub encoded_tag : (ℕ → ℕ) → Text → Text
unfolding trim_hash
encoded_tag wide tag = codes "%23" ++ to_upper wide (trim_hash tag)
