-- ===== src/Api/Outcomes.antt =====
-- api/cmd/api/main.go: which requests are answered, refused and failed.
use brawl_stars_guide.Base.{
  ℕ, suc, ◌≡◌, Bool, true, false, ◌&&◌, ◌||◌, none, some, ap, arith, if◌then◌else◌, Bool-cases, inl,
  inr, ok, err, Result,
}
use brawl_stars_guide.Storage.Statement.{Env, World, exec, handle}
use brawl_stars_guide.Analytics.Filters.{is_ineligible_mode}
use brawl_stars_guide.Analytics.WinRates.{
  Float, WinRateParams, brawler_win_rates, count_eligible, list_brawlers,
}
use brawl_stars_guide.Analytics.Maps.{map_list}
use brawl_stars_guide.Api.{
  Query, Numbers, Response, get_param, parse_battle_type, parse_bucket, parse_min_battles,
}
use brawl_stars_guide.Api.Handlers.{answer_rates, win_rates_handler, maps_handler}
use brawl_stars_guide.Api.Requests.{
  good_mode, good_type, good_bucket, good_min, good_request, asked_type, asked_bucket, asked_min,
  asked,
}

-- The status that is due: 400 for a request that is not well-formed, else 500 or 200.
abbrev pub due : Bool → Bool → ℕ
due good broken = if good then (if broken then 500 else 200) else 400

abbrev pub status_of : Result Response → ℕ
status_of (ok r) = r.status
status_of (err x) = 0

-- mapsHandler always responds: with 400 exactly to a request without an eligible mode or with an
-- unknown battle type, for which the database is not asked, else with 500 if the query
-- fails and with 200 if it does not.
pub maps_handler-status :
    (e : Env) (q : Query) (w : World)
    → (status_of (maps_handler e q w).0 ≡ due (good_mode q && good_type q) (e.fails w.step))
      × ((maps_handler e q w).1 ≡ (
          if good_mode q && good_type q
          then record w { step = suc w.step; db = e.others w.step w.db }
          else w))
unfolding maps_handler parse_battle_type map_list exec handle
maps_handler-status e q w = (ground arith, ground arith)

pub parse_type-eq :
    (q : Query) → parse_battle_type q ≡ (if good_type q then some (asked_type q) else none)
unfolding parse_battle_type
parse_type-eq q = ground arith

pub parse_bucket-eq :
    (lib : Numbers) (q : Query)
    → parse_bucket lib q ≡ (if good_bucket lib q then some (asked_bucket lib q) else none)
unfolding parse_bucket
parse_bucket-eq lib q = ground arith

pub parse_min-eq :
    (lib : Numbers) (q : Query)
    → parse_min_battles lib q ≡ (if good_min lib q then some (asked_min lib q) else none)
unfolding parse_min_battles
parse_min-eq lib q = ground arith

-- A well-formed request goes on to the queries, with what it asks for.
pub handler-good :
    (lib : Numbers) (f : Float) (e : Env) (q : Query) (w : World)
    → good_request lib q ≡ true
    → win_rates_handler lib f e q w ≡ answer_rates f e (asked lib q) w
unfolding win_rates_handler
handler-good lib f e q w h =
    ground (arith, parse_type-eq q, parse_bucket-eq lib q, parse_min-eq lib q)

pub handler-bad :
    (lib : Numbers) (f : Float) (e : Env) (q : Query) (w : World)
    → good_request lib q ≡ false
    → (status_of (win_rates_handler lib f e q w).0 ≡ 400) × ((win_rates_handler lib f e q w).1 ≡ w)
unfolding win_rates_handler
handler-bad lib f e q w h =
    ground (arith, parse_type-eq q, parse_bucket-eq lib q, parse_min-eq lib q)

pub answer-status :
    (f : Float) (e : Env) (p : WinRateParams) (w : World)
    → is_ineligible_mode p.mode ≡ false
    → status_of (answer_rates f e p w).0
      ≡ (if e.fails w.step || e.fails (suc w.step) then 500 else 200)
unfolding answer_rates brawler_win_rates count_eligible list_brawlers exec handle
answer-status f e p w h = ground arith

-- winRatesHandler always responds: with 400 exactly to a request without an eligible mode, with an
-- unknown battle type, a bucket outside 1 to 6 or a least number of battles below 1, for which the
-- database is not asked, else with 500 if one of the two queries fails and with 200 if neither does.
pub win_rates_handler-status :
    (lib : Numbers) (f : Float) (e : Env) (q : Query) (w : World)
    → (status_of (win_rates_handler lib f e q w).0
        ≡ due (good_request lib q) (e.fails w.step || e.fails (suc w.step)))
      × ((win_rates_handler lib f e q w).1
          ≡ (if good_request lib q then (answer_rates f e (asked lib q) w).1 else w))
win_rates_handler-status lib f e q w = elim (Bool-cases (good_request lib q)) [
  | inl good ↦
      let eligible : is_ineligible_mode (get_param q "mode") ≡ false = ground arith in
      let through = handler-good lib f e q w good in
      (
        ground (arith, ap (λ r. status_of r.0) through, answer-status f e (asked lib q) w eligible),
        ground (arith, ap (λ r. r.1) through),
      )
  | inr flawed ↦
      let (refused, untouched) = handler-bad lib f e q w flawed in (ground arith, ground arith)
]
