-- ===== src/Examples/Crawl.antt =====
-- A crawl, a battle log and the scheduler at concrete inputs.
use brawl_stars_guide.Base.{
  ok, text_le, length, any_where, ◌≤◌, ◌≡◌, refl, true, text_eq, codes, [], ◌∷◌, some, none, pos,
  arith, find_where, update_where, least_where, ◌+◌, count_where,
}
use brawl_stars_guide.Apiclient.Types.{BattleEntry}
use brawl_stars_guide.Apiclient.Client.{is_unauthorized, is_forbidden}
use brawl_stars_guide.Storage.Schema.{Target}
use brawl_stars_guide.Storage.Statement.{World, exec, handle}
use brawl_stars_guide.Storage.Crawl.{
  claimable, comes_before, next_target, claim_statement, claim_next_target,
}
use brawl_stars_guide.Ingestion.Discovery.{BattleIngestor, discover_player, try_enqueue}
use brawl_stars_guide.Ingestion.Battle.{
  IngestResult, ingest_battle, collect_participant_tags, team_tags, ingest_tags, write_battle,
  write_rows, write_players, write_participant, ensure_brawler, flat_row, battle_params,
  star_player_tag,
}
use brawl_stars_guide.Storage.Battles.{
  upsert_event, insert_battle, insert_battle_statement, insert_battle_participant,
  participant_statement,
}
use brawl_stars_guide.Storage.Patches.{patch_id_for_time, live_patch}
use brawl_stars_guide.Storage.Players.{enqueue_discovered_player, enqueue_statement}
use brawl_stars_guide.Apiclient.Tags.{normalize_tag, to_upper_rune}
use brawl_stars_guide.Apiclient.Times.{parse_battle_time}
use brawl_stars_guide.Ingestion.Fingerprint.{
  compute_fingerprint, raw_key, normal_tags, sort_strings, join_bar, decimal,
}
use brawl_stars_guide.Ingestion.Discovery.Budget.{discovered}
use brawl_stars_guide.Ingestion.Battle.Budget.{ingest_all, ingest_all-WithinBudget}
use brawl_stars_guide.Crawler.Worker.{call, api_failed, fetch_profile, claimed, run_once}
use brawl_stars_guide.Examples.Data.{
  alice_known, alice, bob, calm, db_of, first_step, refused, runtime,
}

abbrev claimed_alice : Target
claimed_alice = record alice {
  crawl_generation = 5;
  leased_until = some 600000001000;
  updated_at = 1000;
}

abbrev after_claim : World
after_claim = record { step = 1; db = db_of (bob ∷ claimed_alice ∷ []); discoveries = 0 }

run_once_test : (run_once refused first_step).1.step ≡ 3
unfolding run_once claimed fetch_profile call handle claim_next_target exec claim_statement
    next_target least_where claimable comes_before update_where text_eq api_failed is_unauthorized
    is_forbidden
run_once_test = refl

abbrev pub entry : BattleEntry
entry = record {
  battle_time = codes "20240901T143022.000Z";
  event = record { id = 15; mode = "brawlBall"; map_name = "Sneaky Fields" };
  battle = record {
    mode = "brawlBall";
    type = "ranked";
    result = "victory";
    duration = 120;
    trophy_change = none;
    star_player = none;
    teams = [];
    players =
        record {
          tag = codes "#P1";
          name = "one";
          brawler = record { id = 0; name = ""; power = 0; trophies = pos 0 };
        }
        ∷ [];
    rank = none;
  };
}

abbrev ingestor : BattleIngestor
ingestor = record {
  discoverer_tag = codes "ALICE";
  cfg = record { max_discoveries_per_crawl = pos 1 };
}

abbrev before_battle : World
before_battle = record first_step { db = alice_known }

abbrev ingested : World
ingested = (ingest_battle runtime calm ingestor entry before_battle).1

ingest_all-WithinBudget_example :
    let v = ingest_all runtime calm ingestor (entry ∷ entry ∷ []) before_battle in
    (v.discoveries ≤ 1)
    × (discovered (codes "ALICE") v.db + 0 ≤ discovered (codes "ALICE") alice_known + 1)
ingest_all-WithinBudget_example =
    ingest_all-WithinBudget 0 runtime calm ingestor (entry ∷ entry ∷ []) before_battle refl
      (omega arith) (λ n d. omega arith)

-- The battle, its participant and the target of the discovered player.
ingest_test :
    (length ingested.db.battles ≡ 1)
    × (length ingested.db.participants ≡ 1)
    × (length ingested.db.targets ≡ 3)
    × (ingested.discoveries ≡ 1)
    × (discovered (codes "ALICE") ingested.db ≡ 1)
unfolding ingest_battle parse_battle_time collect_participant_tags team_tags ingest_tags
    upsert_event find_where count_where patch_id_for_time live_patch write_battle insert_battle
    insert_battle_statement any_where text_eq write_rows write_players write_participant
    ensure_brawler flat_row insert_battle_participant participant_statement discover_player
    try_enqueue enqueue_discovered_player enqueue_statement exec handle normalize_tag to_upper_rune
    battle_params star_player_tag compute_fingerprint raw_key normal_tags sort_strings join_bar
    decimal text_le
ingest_test = (refl, refl, refl, refl, refl)

abbrev ingest_result : IngestResult
ingest_result = record {
  fingerprint =
      compute_fingerprint runtime
        (record { battle_time = 7; supcell_event_id = 15; participant_tags = codes "#P1" ∷ [] });
  is_new = true;
  has_participant_rows = true;
  new_discoveries = codes "P1" ∷ [];
}

ingest_result_test : (ingest_battle runtime calm ingestor entry before_battle).0 ≡ ok ingest_result
unfolding ingest_battle parse_battle_time collect_participant_tags team_tags ingest_tags
    upsert_event find_where patch_id_for_time live_patch write_battle insert_battle
    insert_battle_statement any_where text_eq write_rows write_players write_participant
    ensure_brawler flat_row insert_battle_participant participant_statement discover_player
    try_enqueue enqueue_discovered_player enqueue_statement exec handle normalize_tag to_upper_rune
    battle_params star_player_tag compute_fingerprint raw_key normal_tags sort_strings join_bar
    decimal text_le
ingest_result_test = refl
