-- ===== src/Examples/History.antt =====
-- The collection of one player, and what the analytics say after it.
use brawl_stars_guide.Base.{
  ℕ, ◌≡◌, refl, ok, err, other, Text, codes, List, [], ◌∷◌, All, length, none, pos, Distinct,
  any_where, text_eq, keep_where, flat_map, group_by, add_row, order_by, insert_row, count_distinct,
  find_where, update_where, text_le,
}
use brawl_stars_guide.Apiclient.Types.{PlayerResponse, BattleEntry, BattleParticipant}
use brawl_stars_guide.Apiclient.Tags.{normalize_tag, to_upper_rune}
use brawl_stars_guide.Apiclient.Times.{parse_battle_time}
use brawl_stars_guide.Storage.Statement.{World, exec, handle}
use brawl_stars_guide.Storage.Consistency.{Consistent}
use brawl_stars_guide.Ingestion.Discovery.{new_battle_ingestor, discover_player, try_enqueue}
use brawl_stars_guide.Ingestion.TeamResults.{
  resolve_team_results, results_from, discoverer_team, opposite_result,
}
use brawl_stars_guide.Ingestion.Battle.{
  ingest_battle, collect_participant_tags, team_tags, ingest_tags, write_battle, write_rows,
  write_teams, write_team, team_row, write_players, write_participant, ensure_brawler,
  battle_params, star_player_tag,
}
use brawl_stars_guide.Ingestion.Player.{
  ingest_player, take_snapshot, write_snapshot, write_brawlers, snapshot_params,
}
use brawl_stars_guide.Storage.Battles.{
  upsert_event, insert_battle, insert_battle_statement, insert_battle_participant,
  participant_statement, insert_battle_team, team_statement,
}
use brawl_stars_guide.Storage.Brawlers.{ensure_retired_brawler, ensure_statement}
use brawl_stars_guide.Storage.Patches.{patch_id_for_time, live_patch}
use brawl_stars_guide.Storage.Players.{
  upsert_player, update_player_crawled, insert_player_snapshot, snapshot_statement,
  enqueue_discovered_player, enqueue_statement,
}
use brawl_stars_guide.Ingestion.Fingerprint.{
  compute_fingerprint, raw_key, normal_tags, sort_strings, join_bar, decimal,
}
use brawl_stars_guide.Domain.{bucket_for_trophies}
use brawl_stars_guide.Analytics.Filters.{
  is_ineligible_mode, battle_type_sql, has_result, base_joins,
}
use brawl_stars_guide.Analytics.WinRates.Totals.{answer}
use brawl_stars_guide.Analytics.Maps.{
  MapEntry, MapListParams, map_list, qualifying, brawler_map, map_entry, map_entries, map_where,
  side_where, sides,
}
use brawl_stars_guide.Analytics.Maps.Qualifying.{rates_on}
use brawl_stars_guide.Crawler.Worker.{run_once, call}
use brawl_stars_guide.Crawler.Worker.Keys.{run_once-Consistent}
use brawl_stars_guide.Collector.Commands.{Api, run_collect_player, collect_entries}
use brawl_stars_guide.Collector.History.{
  History, fresh, then_run, collects, migrated, history_predicts_rates,
}
use brawl_stars_guide.Examples.Data.{alice_known, calm, first_step, refused, runtime}
use brawl_stars_guide.Examples.Site.{numbers}

known-Consistent : Consistent alice_known
unfolding any_where text_eq Distinct
known-Consistent = record {
  battles = tt;
  participants = tt;
  targets = (refl, (refl, tt));
  ids = tt;
  brawlers = tt;
}

abbrev before_crawl : World
before_crawl = record first_step { db = alice_known }

run_once-Consistent_example : Consistent (run_once refused before_crawl).1.db
run_once-Consistent_example = run_once-Consistent refused before_crawl (λ n d h. h) known-Consistent

abbrev member : Text → ℕ → BattleParticipant
member tag brawler_id = record {
  tag = tag;
  name = "one";
  brawler = record { id = brawler_id; name = "SHELLY"; power = 9; trophies = pos 700 };
}

abbrev ball : BattleEntry
ball = record {
  battle_time = codes "20240901T143022.000Z";
  event = record { id = 15; mode = "brawlBall"; map_name = "Sneaky Fields" };
  battle = record {
    mode = "brawlBall";
    type = "ranked";
    result = "victory";
    duration = 120;
    trophy_change = none;
    star_player = none;
    teams = (member (codes "#A") 16000000 ∷ []) ∷ (member (codes "#B") 16000001 ∷ []) ∷ [];
    players = [];
    rank = none;
  };
}

abbrev alice_profile : PlayerResponse
alice_profile = record {
  tag = codes "#A";
  name = "Alice";
  trophies = pos 700;
  highest_trophies = pos 800;
  exp_level = 10;
  three_v_three_wins = 1;
  solo_victories = 0;
  duo_victories = 0;
  club = none;
  brawlers = [];
}

abbrev answering : Api
answering = record {
  player = λ n tag. ok alice_profile;
  battle_log = λ n tag. ok (record { items = ball ∷ [] });
  brawlers = λ n. err other;
}

abbrev start_world : World
start_world = record { step = 0; db = migrated []; discoveries = 0 }

abbrev collected : World
collected = (run_collect_player runtime calm answering (codes "#A") start_world).1

collected-History : History collected.db
collected-History =
    then_run (fresh [])
      (collects runtime calm answering (codes "#A") start_world (λ n d h. h) refl refl)

abbrev ball_maps : MapListParams
ball_maps = record { mode = "brawlBall"; battle_type = "" }

abbrev ball_listed : List MapEntry
ball_listed = record { map_name = "Sneaky Fields"; battles = 1; qualifying_brawlers = 0 } ∷ []

collected_test : (map_list calm ball_maps collected).0 ≡ ok ball_listed
unfolding run_collect_player collect_entries call new_battle_ingestor ingest_player take_snapshot
    write_snapshot write_brawlers snapshot_params upsert_player update_player_crawled
    insert_player_snapshot snapshot_statement bucket_for_trophies ingest_battle parse_battle_time
    collect_participant_tags team_tags ingest_tags upsert_event find_where patch_id_for_time
    live_patch write_battle insert_battle insert_battle_statement any_where text_eq write_rows
    write_teams write_team team_row resolve_team_results write_players write_participant
    ensure_brawler ensure_retired_brawler ensure_statement insert_battle_team team_statement
    insert_battle_participant participant_statement discover_player try_enqueue
    enqueue_discovered_player enqueue_statement exec handle normalize_tag to_upper_rune
    battle_params star_player_tag compute_fingerprint raw_key normal_tags sort_strings join_bar
    decimal text_le update_where is_ineligible_mode map_list map_entries map_entry qualifying
    brawler_map sides side_where map_where base_joins flat_map has_result battle_type_sql keep_where
    group_by add_row order_by insert_row count_distinct results_from discoverer_team opposite_result
collected_test = refl

history_predicts_rates_example :
    All
      (λ m.
        m.qualifying_brawlers
        ≡ length (answer numbers (rates_on ball_maps m.map_name) collected.db).brawlers)
      ball_listed
history_predicts_rates_example =
    history_predicts_rates numbers calm ball_maps collected ball_listed collected-History
      collected_test
