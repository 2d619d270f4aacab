-- ===== src/Examples/Served.antt =====
-- A crawl that the API serves, at a concrete input.
use brawl_stars_guide.Base.{
  ok, text_le, any_where, ◌≡◌, refl, true, text_eq, codes, [], ◌∷◌, none, pos, find_where,
  update_where, least_where, count_where,
}
use brawl_stars_guide.Apiclient.Types.{PlayerResponse}
use brawl_stars_guide.Apiclient.Tags.{normalize_tag, to_upper_rune}
use brawl_stars_guide.Apiclient.Times.{parse_battle_time}
use brawl_stars_guide.Domain.{bucket_for_trophies, priority_for_trophies}
use brawl_stars_guide.Storage.Statement.{exec, handle}
use brawl_stars_guide.Storage.Crawl.{
  claimable, comes_before, next_target, claim_statement, claim_next_target, ownership_valid,
  ownership_statement, finalize_crawl, finalize_statement,
}
use brawl_stars_guide.Storage.Sampling.{
  classify_and_sample_target, sample_rows, sample, classify, active_target_count,
}
use brawl_stars_guide.Storage.Players.{
  upsert_player, update_player_crawled, insert_player_snapshot, snapshot_statement,
  enqueue_discovered_player, enqueue_statement,
}
use brawl_stars_guide.Storage.Patches.{patch_id_for_time, live_patch}
use brawl_stars_guide.Storage.Battles.{
  upsert_event, insert_battle, insert_battle_statement, insert_battle_participant,
  participant_statement,
}
use brawl_stars_guide.Ingestion.Discovery.{discover_player, try_enqueue, new_battle_ingestor}
use brawl_stars_guide.Ingestion.Fingerprint.{
  compute_fingerprint, raw_key, normal_tags, sort_strings, join_bar, decimal,
}
use brawl_stars_guide.Ingestion.Battle.{
  ingest_battle, collect_participant_tags, team_tags, ingest_tags, write_battle, write_rows,
  write_players, write_participant, ensure_brawler, flat_row, battle_params, star_player_tag,
}
use brawl_stars_guide.Ingestion.Player.{
  ingest_player, take_snapshot, write_snapshot, write_brawlers, snapshot_params,
}
use brawl_stars_guide.Ingestion.Battle.Rows.{KeepsRows}
use brawl_stars_guide.Crawler.Worker.{
  Worker, run_once, claimed, fetch_profile, fetch_log, check_ownership, ingest_profile,
  classify_profile, classified, ingest_log, check_ceiling, ceiling_config, ingest_entries, finish,
  finalize, call,
}
use brawl_stars_guide.Crawler.Worker.Settled.Complete.{completed, LogStored, run_once_stores}
use brawl_stars_guide.Examples.Data.{calm, alice_claim, refused, first_step}
use brawl_stars_guide.Examples.Crawl.{entry}
use brawl_stars_guide.Examples.Lifecycle.{after_claim}

abbrev profile : PlayerResponse
profile = record {
  tag = codes "#ALICE";
  name = "Alice";
  trophies = pos 12000;
  highest_trophies = pos 13000;
  exp_level = 90;
  three_v_three_wins = 100;
  solo_victories = 10;
  duo_victories = 10;
  club = none;
  brawlers = [];
}

-- An API that answers with a profile and a log of one battle.
abbrev served : Worker
served = record refused {
  outside = record (refused.outside) {
    player = λ t tag. ok profile;
    battle_log = λ t tag. ok (record { items = entry ∷ [] });
  };
}

served-completed : completed (run_once served first_step).0 ≡ true
unfolding run_once claimed fetch_profile call handle claim_next_target exec claim_statement
    next_target least_where claimable comes_before find_where update_where text_eq fetch_log
    check_ownership ownership_valid ownership_statement ingest_profile ingest_player normalize_tag
    to_upper_rune upsert_player any_where take_snapshot patch_id_for_time live_patch write_snapshot
    snapshot_params insert_player_snapshot snapshot_statement write_brawlers update_player_crawled
    classify_profile classify_and_sample_target sample_rows sample classify count_where
    bucket_for_trophies priority_for_trophies classified ingest_log check_ceiling
    active_target_count ceiling_config new_battle_ingestor ingest_entries ingest_battle
    parse_battle_time collect_participant_tags team_tags ingest_tags upsert_event write_battle
    insert_battle insert_battle_statement write_rows write_players write_participant ensure_brawler
    flat_row insert_battle_participant participant_statement discover_player try_enqueue
    enqueue_discovered_player enqueue_statement battle_params star_player_tag compute_fingerprint
    raw_key normal_tags sort_strings join_bar decimal text_le finish finalize finalize_crawl
    finalize_statement
served-completed = refl

calm-KeepsRows : KeepsRows calm
calm-KeepsRows = record { battles = λ fp id n d h. h; participants = λ id tag n d h. h }

run_once_stores_example : LogStored served alice_claim (run_once served first_step).1
unfolding claim_next_target exec claim_statement next_target least_where claimable comes_before
    find_where update_where text_eq
run_once_stores_example =
    run_once_stores served alice_claim first_step after_claim calm-KeepsRows refl served-completed
