-- ===== src/Examples/Commands.antt =====
-- The REST API, the collector command and RunN at concrete inputs.
use brawl_stars_guide.Base.{
  ◌+◌, ◌≤◌, ◌≤ℤ◌, ◌≡◌, refl, true, false, ◌&&◌, String, str_eq, codes, [], ◌∷◌, Option, some, none,
  ℤ, pos, pos_part, ok, err, other, All, any_where, keep_where, order_by, flat_map, group_by,
  add_row, insert_row, count_distinct, count_where, if◌then◌else◌,
}
use brawl_stars_guide.Apiclient.Types.{BrawlerListResponse}
use brawl_stars_guide.Storage.Statement.{World, exec, handle}
use brawl_stars_guide.Ingestion.Discovery.{BattleIngestor}
use brawl_stars_guide.Analytics.Filters.{
  is_ineligible_mode, default_type, valid_battle_type, base_joins, has_result, battle_type_sql,
}
use brawl_stars_guide.Analytics.WinRates.{
  min_battles_of, brawler_win_rates, count_eligible, list_brawlers, aggregates, eligible,
  base_where, picks_of, aggregate, scan_row, rounded, ranks_before,
}
use brawl_stars_guide.Api.{
  Query, Numbers, WinRateResponse, rates, parse_battle_type, parse_bucket, parse_min_battles,
}
use brawl_stars_guide.Api.Handlers.{win_rates_handler, maps_handler, answer_rates}
use brawl_stars_guide.Api.Requests.{good_mode, good_type, good_request, asked}
use brawl_stars_guide.Api.Outcomes.{maps_handler-status, win_rates_handler-status, status_of, due}
use brawl_stars_guide.Api.Responses.{InRange, reported, carried, response-IsEffective}
use brawl_stars_guide.Collector.{crawl_settings}
use brawl_stars_guide.Collector.Settings.{crawl_settings_pos}
use brawl_stars_guide.Collector.Commands.{
  Api, Collected, none_collected, collect_entries, is_deferred, run_repair_showdown,
  run_seed_brawlers,
}
use brawl_stars_guide.Collector.Repair.{Calm}
use brawl_stars_guide.Collector.Repair.Complete.{run_repair_showdown_complete, repairable}
use brawl_stars_guide.Collector.Loops.{collect_entries_tally, run_seed_brawlers_active, active}
use brawl_stars_guide.Examples.Data.{db_of, calm, first_step, runtime}
use brawl_stars_guide.Examples.Site.{shelly, shelly_wins, battle_in, site, numbers, lost_entry}

-- GET …?mode=gemGrab&min_battles=3
abbrev asks : Query
asks key =
    if str_eq key "mode" then "gemGrab" ∷ [] else if str_eq key "min_battles" then "3" ∷ [] else []

abbrev reads_three : Numbers
reads_three = record { parse_int16 = λ s. some (pos 3); atoi = λ s. some (pos 3) }

maps_handler-status_example :
    (status_of (maps_handler calm asks site).0 ≡ due (good_mode asks && good_type asks) false)
    × ((maps_handler calm asks site).1
        ≡ (if good_mode asks && good_type asks then record site { step = 1 } else site))
maps_handler-status_example = maps_handler-status calm asks site

win_rates_handler-status_example :
    (status_of (win_rates_handler reads_three numbers calm asks site).0
      ≡ due (good_request reads_three asks) false)
    × ((win_rates_handler reads_three numbers calm asks site).1 ≡ (
        if good_request reads_three asks
        then (answer_rates numbers calm (asked reads_three asks) site).1
        else site))
win_rates_handler-status_example = win_rates_handler-status reads_three numbers calm asks site

abbrev shelly_response : WinRateResponse
shelly_response = record {
  mode = "gemGrab";
  map_name = none;
  battle_type = "ranked";
  brawler_trophy_bucket = none;
  min_battles = pos 3;
  data_label = "DIRECT+DERIVED";
  sample_battles = 10;
  total_slots = 10;
  brawlers = shelly_wins.brawlers;
}

win_rates_handler_test :
    (win_rates_handler reads_three numbers calm asks site).0
    ≡ ok (record { status = 200; body = rates shelly_response })
unfolding win_rates_handler parse_battle_type parse_bucket parse_min_battles answer_rates
    is_ineligible_mode brawler_win_rates count_eligible list_brawlers exec handle aggregates
    eligible base_where base_joins flat_map picks_of aggregate scan_row rounded ranks_before
    has_result battle_type_sql keep_where group_by add_row order_by insert_row count_distinct
    count_where any_where
win_rates_handler_test = refl

response-IsEffective_example :
    ((brawler_win_rates numbers calm (reported shelly_response) site).0
      ≡ ok (carried shelly_response))
    × (reported shelly_response ≡ asked reads_three asks)
    × (valid_battle_type shelly_response.battle_type ≡ true)
    × (default_type shelly_response.battle_type ≡ shelly_response.battle_type)
    × InRange shelly_response.brawler_trophy_bucket
    × (pos (min_battles_of (reported shelly_response)) ≡ shelly_response.min_battles)
response-IsEffective_example =
    response-IsEffective reads_three numbers calm asks site shelly_response win_rates_handler_test

-- An environment that sets one variable, to a number that is refused.
abbrev zero_cap : String → String
zero_cap key = if str_eq key "CRAWLER_BUCKET_CAP" then "0" else ""

abbrev reads_zero : String → Option ℤ
reads_zero s = some (pos 0)

crawl_settings_pos_example :
    let s = crawl_settings zero_cap reads_zero in
    (pos 1 ≤ℤ s.workers)
    × (1 ≤ pos_part s.rate_limit)
    × (pos 1 ≤ℤ s.cfg.max_discoveries_per_crawl)
    × (pos 1 ≤ℤ s.cfg.max_active_targets)
    × (pos 1 ≤ℤ s.cfg.bucket_cap)
crawl_settings_pos_example = crawl_settings_pos zero_cap reads_zero

calm-Calm : Calm calm
calm-Calm = record { up = λ n. refl; alone = λ n d. refl }

-- Two battles of Solo Showdown, one of which has no stored players.
abbrev unrepaired : World
unrepaired = record site {
  db = record (db_of []) {
    brawlers = shelly ∷ [];
    battles =
        record (battle_in "soloShowdown" 4) {
          raw_battle_data = record lost_entry {
            battle = record (lost_entry.battle) { players = [] };
          };
        }
        ∷ battle_in "soloShowdown" 3
        ∷ [];
  };
}

run_repair_showdown_complete_example :
    let after = (run_repair_showdown runtime calm (λ entry. true) unrepaired).1.db in
    keep_where (λ b. is_deferred after b && repairable (λ entry. true) b) after.battles ≡ []
run_repair_showdown_complete_example =
    run_repair_showdown_complete runtime calm (λ entry. true) unrepaired calm-Calm

abbrev ingestor : BattleIngestor
ingestor = record {
  discoverer_tag = codes "ALICE";
  cfg = record { max_discoveries_per_crawl = pos 0 };
}

collect_entries_tally_example :
    (r : Collected) × (((collect_entries runtime calm ingestor
          (lost_entry ∷ lost_entry ∷ [])
          none_collected
          first_step).0
        ≡ ok r)
      × (r.new_battles + r.skipped + r.errored ≡ 2))
collect_entries_tally_example =
    collect_entries_tally runtime calm ingestor (lost_entry ∷ lost_entry ∷ []) none_collected
      first_step

abbrev two_brawlers : BrawlerListResponse
two_brawlers = record {
  items =
      record { id = 16000000; name = "SHELLY"; star_powers = []; gadgets = [] }
      ∷ record { id = 16000001; name = "COLT"; star_powers = []; gadgets = [] }
      ∷ [];
}

abbrev brawler_api : Api
brawler_api = record {
  player = λ n tag. err other;
  battle_log = λ n tag. err other;
  brawlers = λ n. ok two_brawlers;
}

run_seed_brawlers_active_example :
    ((run_seed_brawlers calm brawler_api unrepaired).0 ≡ ok 2)
    × All
        (λ b. active b.id (run_seed_brawlers calm brawler_api unrepaired).1.db ≡ true)
        two_brawlers.items
run_seed_brawlers_active_example =
    run_seed_brawlers_active calm brawler_api two_brawlers unrepaired calm-Calm refl
