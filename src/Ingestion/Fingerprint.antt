-- ===== src/Ingestion/Fingerprint.antt =====
-- ingestion/fingerprint.go: BattleKey and ComputeFingerprint.
pub mod Sorting
pub mod Printing
pub mod Separation
pub mod Identity
use brawl_stars_guide.Base.{
  ℕ, zero, suc, ◌+◌, ◌/◌, ◌%◌, Bool, Text, codes, List, [], ◌∷◌, ◌++◌, map, ltb, if◌then◌else◌,
  text_le,
}
use brawl_stars_guide.Apiclient.Tags.{to_upper, trim_hash, normalize_tag}
use brawl_stars_guide.Ingestion.Runtime.{Runtime}

pub record BattleKey : Type 0 where
  pub battle_time : ℕ
  pub supcell_event_id : ℕ
  pub participant_tags : List Text

-- sort.Strings
unfoldable pub insert_sorted : Text → List Text → List Text
insert_sorted t [] = t ∷ []
insert_sorted t (s ∷ ss) =
    let rest = insert_sorted t ss in if text_le t s then t ∷ s ∷ ss else s ∷ rest

unfoldable pub sort_strings : List Text → List Text
unfolding insert_sorted
sort_strings [] = []
sort_strings (t ∷ ts) = insert_sorted t (sort_strings ts)

-- %d of a number that is not negative. The number itself is fuel enough for its digits.
unfoldable pub decimal_from : ℕ → ℕ → Text → Text
decimal_from zero n acc = acc
decimal_from (suc f) n acc =
    let rest = decimal_from f (n / 10) ((b'0' + n % 10) ∷ acc) in
    if ltb n 10 then (b'0' + n) ∷ acc else rest

unfoldable pub decimal : ℕ → Text
unfolding decimal_from
decimal n = decimal_from (suc n) n []

-- strings.Join(tags, "|")
unfoldable pub join_bar : List Text → Text
join_bar [] = []
join_bar (t ∷ []) = t
join_bar (t ∷ u ∷ ts) = t ++ b'|' ∷ join_bar (u ∷ ts)

unfoldable pub normal_tags : Runtime → List Text → List Text
normal_tags rt tags = sort_strings (map (normalize_tag rt.wide) tags)

-- The text that is hashed.
unfoldable pub raw_key : Runtime → BattleKey → Text
raw_key rt key =
    rt.format_time key.battle_time
    ++ b'|'
      ∷ (decimal key.supcell_event_id ++ b'|' ∷ join_bar (normal_tags rt key.participant_tags))

unfoldable pub compute_fingerprint : Runtime → BattleKey → Text
compute_fingerprint rt key = rt.sha256_hex (raw_key rt key)
