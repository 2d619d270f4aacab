-- ===== src/Api.antt =====
-- api/cmd/api/main.go: the REST API. Parsing of URLs and numbers and the encoding of JSON belong to the
-- Go library; a response is its status and the value that is encoded.
pub mod Handlers
pub mod Requests
pub mod Outcomes
pub mod Responses
use brawl_stars_guide.Base.{
  ℕ, Bool, true, false, ◌||◌, String, str_eq, Option, none, some, List, [], ◌∷◌, ℤ, pos, pos_part,
  ltb_ℤ, if◌then◌else◌,
}
use brawl_stars_guide.Storage.Connection.{Driver, pool_open, connect}
use brawl_stars_guide.Analytics.Filters.{valid_battle_type}
use brawl_stars_guide.Analytics.WinRates.{BrawlerWinRate}
use brawl_stars_guide.Analytics.Maps.{MapEntry}

-- r.URL.Query(): the values of each key.
abbrev pub Query : Type 0
Query = String → List String

abbrev first_or_empty : List String → String
first_or_empty [] = ""
first_or_empty (v ∷ vs) = v

-- q.Get(key)
abbrev pub get_param : Query → String → String
get_param q key = first_or_empty (q key)

-- strconv, for what it accepts.
pub record Numbers : Type 0 where
  pub parse_int16 : String → Option ℤ  -- strconv.ParseInt(s, 10, 16)
  pub atoi : String → Option ℤ  -- strconv.Atoi(s)

pub record WinRateResponse : Type 0 where
  pub mode : String
  pub map_name : Option String
  pub battle_type : String
  pub brawler_trophy_bucket : Option ℕ
  pub min_battles : ℤ
  pub data_label : String
  pub sample_battles : ℕ
  pub total_slots : ℕ
  pub brawlers : List BrawlerWinRate

pub record MapsResponse : Type 0 where
  pub mode : String
  pub battle_type : String
  pub data_label : String
  pub maps : List MapEntry

pub data Body : Type 0 where
  message : String → Body  -- {"error": …}
  rates : WinRateResponse → Body
  maps : MapsResponse → Body

pub record Response : Type 0 where
  pub status : ℕ
  pub body : Body

abbrev pub write_err : ℕ → String → Response
write_err status msg = record { status = status; body = message msg }

abbrev pub bad : String → Response
bad msg = write_err 400 msg

-- http.StatusInternalServerError
abbrev pub failed : Response
failed = write_err 500 "internal server error"

abbrev pub type_message : String
type_message = "battle_type must be one of: ranked, soloRanked, competitive, any"

abbrev battle_type_of : String → Option String
battle_type_of raw =
    if str_eq raw "" then some "ranked" else if valid_battle_type raw then some raw else none

-- `none` where the code writes a 400.
unfoldable pub parse_battle_type : Query → Option String
parse_battle_type q = battle_type_of (first_or_empty (q "battle_type"))

-- The parameter `map`, if there is one.
abbrev pub map_param : Query → Option String
map_param q = let raw = get_param q "map" in if str_eq raw "" then none else some raw

abbrev bucket_in_range : Option ℤ → Option (Option ℕ)
bucket_in_range none = none
bucket_in_range (some n) =
    if ltb_ℤ n (pos 1) || ltb_ℤ (pos 6) n then none else some (some (pos_part n))

-- The outer `none` is a 400.
unfoldable pub parse_bucket : Numbers → Query → Option (Option ℕ)
parse_bucket lib q =
    let raw = get_param q "brawler_trophy_bucket" in
    if str_eq raw "" then some none else bucket_in_range (lib.parse_int16 raw)

abbrev positive : Option ℤ → Option ℤ
positive none = none
positive (some n) = if ltb_ℤ n (pos 1) then none else some n

-- `none` is a 400.
unfoldable pub parse_min_battles : Numbers → Query → Option ℤ
parse_min_battles lib q =
    let raw = get_param q "min_battles" in
    if str_eq raw "" then some (pos 10) else positive (lib.atoi raw)

-- How the process starts. os.Getenv gives "" for what is not set.
pub data Startup : Type 0 where
  fatal : Startup
  listen : String → Startup

abbrev pub env_or : (String → String) → String → String → String
env_or getenv key fallback = let v = getenv key in if str_eq v "" then fallback else v

-- mustEnv; `none` is log.Fatalf.
abbrev pub must_env : (String → String) → String → Option String
must_env getenv key = let v = getenv key in if str_eq v "" then none else some v

unfoldable pub start_api : (String → String) → Driver → Startup
start_api getenv driver = elim (must_env getenv "DATABASE_URL") [
  | none ↦ fatal
  | some url ↦
      if pool_open (connect driver url) then listen (env_or getenv "API_ADDR" ":8080") else fatal
]
