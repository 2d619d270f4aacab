-- ===== src/Apiclient/Times.antt =====
-- apiclient/client.go: ParseBattleTime. time.ParseInLocation is a parameter.
use brawl_stars_guide.Base.{ℕ, Text, [], ◌∷◌, Option, ◌==◌, if◌then◌else◌}

-- strings.TrimSuffix(s, "Z"); "Z" is the code point 90.
unfoldable pub trim_z : Text → Text
trim_z [] = []
trim_z (c ∷ []) = if c == 90 then [] else c ∷ []
trim_z (c ∷ (d ∷ s)) = c ∷ trim_z (d ∷ s)

unfoldable pub parse_battle_time : (Text → Option ℕ) → Text → Option ℕ
unfolding trim_z
parse_battle_time parse_in_location s = parse_in_location (trim_z s)
