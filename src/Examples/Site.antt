-- ===== src/Examples/Site.antt =====
-- Win rates and maps at concrete inputs.
use brawl_stars_guide.Base.{
  ℕ, zero, suc, ◌+◌, ◌*◌, ◌/◌, ◌≡◌, refl, true, false, String, codes, List, [], ◌∷◌, map, some,
  none, pos, ok, All, any_where, sum_of, keep_where, flat_map, group_by, add_row, order_by,
  insert_row, count_distinct, count_where, Distinct,
}
use brawl_stars_guide.Apiclient.Types.{BattleEntry}
use brawl_stars_guide.Storage.Schema.{Db, Battle, Brawler}
use brawl_stars_guide.Storage.Statement.{World, exec, handle}
use brawl_stars_guide.Analytics.Filters.{
  is_ineligible_mode, battle_type_sql, has_result, base_joins,
}
use brawl_stars_guide.Analytics.WinRates.{
  Float, WinRateParams, WinRateResult, brawler_win_rates, count_eligible, list_brawlers, aggregates,
  eligible, base_where, picks_of, aggregate, scan_row, rounded, ranks_before,
}
use brawl_stars_guide.Analytics.WinRates.Attribution.{Attributed}
use brawl_stars_guide.Analytics.WinRates.Totals.{slots-add_up}
use brawl_stars_guide.Analytics.WinRates.Shape.{IsSound, Ranked, win_rates-IsSound}
use brawl_stars_guide.Analytics.Maps.{
  MapEntry, MapListParams, map_list, qualifying, brawler_map, map_entry, map_entries, map_where,
  side_where, sides,
}
use brawl_stars_guide.Examples.Data.{db_of, calm}

abbrev pub shelly : Brawler
shelly = record {
  id = 16000000;
  name = "SHELLY";
  rarity = none;
  class = none;
  is_active = true;
  updated_at = 1;
}

abbrev pub lost_entry : BattleEntry
lost_entry = record {
  battle_time = codes "20240901T143022.000Z";
  event = record { id = 15; mode = "soloShowdown"; map_name = "Mine" };
  battle = record {
    mode = "soloShowdown";
    type = "ranked";
    result = "";
    duration = 120;
    trophy_change = none;
    star_player = none;
    teams = [];
    players =
        record {
          tag = codes "#P1";
          name = "one";
          brawler = record { id = 16000001; name = "COLT"; power = 9; trophies = pos 700 };
        }
        ∷ [];
    rank = some 3;
  };
}

abbrev pub battle_in : String → ℕ → Battle
battle_in mode id = record {
  id = id;
  fingerprint = codes "F";
  battle_time = 7;
  event_id = none;
  event_mode = mode;
  event_map = "Mine";
  battle_type = "ranked";
  duration_seconds = none;
  star_player_tag = none;
  patch_id = none;
  trophy_change = none;
  trophy_change_player_tag = none;
  discovered_via_player_tag = none;
  raw_battle_data = lost_entry;
}

abbrev first_numbers : ℕ → List ℕ
first_numbers zero = []
first_numbers (suc n) = suc n ∷ first_numbers n

-- Ten battles in which Shelly wins.
abbrev won : Db
won = record (db_of []) {
  brawlers = shelly ∷ [];
  battles = map (battle_in "gemGrab") (first_numbers 10);
  teams =
      map (λ n. record { id = 100 + n; battle_id = n; team_index = 0; result = "victory" })
        (first_numbers 10);
  participants =
      map
        (λ n. record {
          battle_id = n;
          team_id = some (100 + n);
          player_tag = codes "P1";
          player_name = "one";
          brawler_id = some 16000000;
          brawler_power = some 9;
          brawler_trophies = some (pos 700);
          is_star_player = false;
          trophy_bucket = some 3;
        })
        (first_numbers 10);
}

abbrev pub site : World
site = record { step = 0; db = won; discoveries = 0 }

-- Exact for the ratios that occur.
abbrev pub numbers : Float
numbers = record { of_int = λ n. n; div = λ a b. a / b; mul = λ a b. a * b; round = λ a. a }

abbrev on_mine : WinRateParams
on_mine = record {
  mode = "gemGrab";
  map_name = some "Mine";
  battle_type = "";
  brawler_trophy_bucket = none;
  min_battles = pos 1;
}

won-Attributed : Attributed won
unfolding any_where Distinct
won-Attributed = record {
  ids = (refl, tt);
  known = (refl, (refl, (refl, (refl, (refl, (refl, (refl, (refl, (refl, (refl, tt))))))))));
}

slots-add_up_example :
    (r : WinRateResult) × ((brawler_win_rates numbers calm on_mine site).0 ≡ ok r)
    × (sum_of (λ b. b.slots) r.brawlers ≡ r.total_slots)
unfolding is_ineligible_mode
slots-add_up_example =
    slots-add_up numbers calm on_mine site refl (refl, refl, refl) won-Attributed refl

abbrev pub shelly_wins : WinRateResult
shelly_wins = record {
  sample_battles = 10;
  total_slots = 10;
  brawlers =
      record {
        brawler_id = 16000000;
        name = "SHELLY";
        battles = 10;
        slots = 10;
        wins = 10;
        losses = 0;
        draws = 0;
        win_pct = some 1;
        pick_rate = some 1;
      }
      ∷ [];
}

win_rates_test : (brawler_win_rates numbers calm on_mine site).0 ≡ ok shelly_wins
unfolding is_ineligible_mode brawler_win_rates count_eligible list_brawlers exec handle aggregates
    eligible base_where base_joins flat_map picks_of aggregate scan_row rounded ranks_before
    has_result battle_type_sql keep_where group_by add_row order_by insert_row count_distinct
    count_where any_where
win_rates_test = refl

win_rates-IsSound_example :
    All (IsSound numbers 1 10) shelly_wins.brawlers × Ranked shelly_wins.brawlers
win_rates-IsSound_example = win_rates-IsSound numbers calm on_mine site shelly_wins win_rates_test

abbrev in_gem_grab : MapListParams
in_gem_grab = record { mode = "gemGrab"; battle_type = "ranked" }

abbrev mine_listed : List MapEntry
mine_listed = record { map_name = "Mine"; battles = 10; qualifying_brawlers = 1 } ∷ []

map_list_test : (map_list calm in_gem_grab site).0 ≡ ok mine_listed
unfolding is_ineligible_mode map_list map_entries map_entry qualifying brawler_map sides side_where
    map_where base_joins flat_map has_result battle_type_sql keep_where group_by add_row order_by
    insert_row count_distinct any_where exec
map_list_test = refl
