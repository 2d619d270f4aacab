-- ===== src/Api/Handlers.antt =====
-- api/cmd/api/main.go: winRatesHandler and mapsHandler.
use brawl_stars_guide.Base.{ℕ, String, str_eq, Option, none, some, ℤ, pos, List, if◌then◌else◌}
use brawl_stars_guide.Storage.Statement.{Env, M, handle, return}
use brawl_stars_guide.Analytics.Filters.{is_ineligible_mode}
use brawl_stars_guide.Analytics.WinRates.{Float, WinRateParams, WinRateResult, brawler_win_rates}
use brawl_stars_guide.Analytics.Maps.{MapEntry, MapListParams, map_list}
use brawl_stars_guide.Api.{
  Query, Numbers, Response, rates, maps, get_param, map_param, parse_battle_type, parse_bucket,
  parse_min_battles, bad, failed, type_message,
}

abbrev pub rates_response : WinRateParams → WinRateResult → Response
rates_response p r = record {
  status = 200;
  body = rates (record {
    mode = p.mode;
    map_name = p.map_name;
    battle_type = p.battle_type;
    brawler_trophy_bucket = p.brawler_trophy_bucket;
    min_battles = p.min_battles;
    data_label = "DIRECT+DERIVED";
    sample_battles = r.sample_battles;
    total_slots = r.total_slots;
    brawlers = r.brawlers;
  });
}

-- From the query on.
unfoldable pub answer_rates : Float → Env → WinRateParams → M Response
answer_rates f e p =
    handle (brawler_win_rates f e p) (λ x. return failed) (λ r. return (rates_response p r))

abbrev pub with_min : Float → Env → WinRateParams → Option ℤ → M Response
with_min f e p none = return (bad "min_battles must be a positive integer")
with_min f e p (some n) = answer_rates f e (record p { min_battles = n })

abbrev pub with_bucket :
    Numbers → Float → Env → Query → WinRateParams → Option (Option ℕ) → M Response
with_bucket lib f e q p none = return (bad "brawler_trophy_bucket must be an integer 1-6")
with_bucket lib f e q p (some b) =
    with_min f e (record p { brawler_trophy_bucket = b }) (parse_min_battles lib q)

abbrev pub with_type : Numbers → Float → Env → Query → String → Option String → M Response
with_type lib f e q mode none = return (bad type_message)
with_type lib f e q mode (some bt) =
    with_bucket lib f e q
      (record {
        mode = mode;
        map_name = map_param q;
        battle_type = bt;
        brawler_trophy_bucket = none;
        min_battles = pos 10;
      })
      (parse_bucket lib q)

unfoldable pub win_rates_handler : Numbers → Float → Env → Query → M Response
win_rates_handler lib f e q =
    let mode = get_param q "mode" in
    if str_eq mode ""
    then return (bad "mode is required")
    else if is_ineligible_mode mode
    then return (
        bad "mode does not support binary win-rate (rank-based outcomes or no brawler attribution)")
    else with_type lib f e q mode (parse_battle_type q)

abbrev pub maps_response : MapListParams → List MapEntry → Response
maps_response p entries = record {
  status = 200;
  body = maps (record {
    mode = p.mode;
    battle_type = p.battle_type;
    data_label = "DIRECT";
    maps = entries;
  });
}

abbrev pub with_map_type : Env → String → Option String → M Response
with_map_type e mode none = return (bad type_message)
with_map_type e mode (some bt) =
    handle (map_list e (record { mode = mode; battle_type = bt })) (λ x. return failed)
      (λ entries. return (maps_response (record { mode = mode; battle_type = bt }) entries))

unfoldable pub maps_handler : Env → Query → M Response
maps_handler e q =
    let mode = get_param q "mode" in
    if str_eq mode ""
    then return (bad "mode is required")
    else if is_ineligible_mode mode
    then return
        (bad "mode does not support map list (rank-based outcomes or no brawler attribution)")
    else with_map_type e mode (parse_battle_type q)
