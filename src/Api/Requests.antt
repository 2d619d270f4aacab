-- ===== src/Api/Requests.antt =====
-- api/cmd/api/main.go: what a request must have, and what it asks for.
use brawl_stars_guide.Base.{
  ℕ, Bool, false, ◌&&◌, ◌||◌, not, String, str_eq, Option, none, some, ℤ, pos, pos_part, leb_ℤ,
  if◌then◌else◌,
}
use brawl_stars_guide.Analytics.Filters.{is_ineligible_mode, valid_battle_type}
use brawl_stars_guide.Analytics.WinRates.{WinRateParams}
use brawl_stars_guide.Api.{Query, Numbers, get_param, map_param}

-- What a request for maps must have: a mode with win rates, and one of the four battle types or none.
abbrev pub good_mode : Query → Bool
good_mode q = let mode = get_param q "mode" in not (str_eq mode "") && not (is_ineligible_mode mode)

abbrev pub good_type : Query → Bool
good_type q = let raw = get_param q "battle_type" in str_eq raw "" || valid_battle_type raw

abbrev pub within : ℤ → ℤ → Option ℤ → Bool
within lo hi none = false
within lo hi (some n) = leb_ℤ lo n && leb_ℤ n hi

abbrev pub at_least : ℤ → Option ℤ → Bool
at_least lo none = false
at_least lo (some n) = leb_ℤ lo n

-- And what a request for win rates must have besides.
abbrev pub good_bucket : Numbers → Query → Bool
good_bucket lib q =
    let raw = get_param q "brawler_trophy_bucket" in
    str_eq raw "" || within (pos 1) (pos 6) (lib.parse_int16 raw)

abbrev pub good_min : Numbers → Query → Bool
good_min lib q =
    let raw = get_param q "min_battles" in str_eq raw "" || at_least (pos 1) (lib.atoi raw)

abbrev pub good_request : Numbers → Query → Bool
good_request lib q = good_mode q && good_type q && good_bucket lib q && good_min lib q

abbrev pub number_or : ℤ → Option ℤ → ℤ
number_or n none = n
number_or n (some m) = m

abbrev pub asked_type : Query → String
asked_type q = let raw = get_param q "battle_type" in if str_eq raw "" then "ranked" else raw

abbrev pub asked_bucket : Numbers → Query → Option ℕ
asked_bucket lib q =
    let raw = get_param q "brawler_trophy_bucket" in
    if str_eq raw "" then none else some (pos_part (number_or (pos 0) (lib.parse_int16 raw)))

abbrev pub asked_min : Numbers → Query → ℤ
asked_min lib q =
    let raw = get_param q "min_battles" in
    if str_eq raw "" then pos 10 else number_or (pos 0) (lib.atoi raw)

-- The parameters that a well-formed request asks for.
abbrev pub asked : Numbers → Query → WinRateParams
asked lib q = record {
  mode = get_param q "mode";
  map_name = map_param q;
  battle_type = asked_type q;
  brawler_trophy_bucket = asked_bucket lib q;
  min_battles = asked_min lib q;
}
