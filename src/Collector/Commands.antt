-- ===== src/Collector/Commands.antt =====
-- collector/cmd/collector/main.go: runCollectPlayer, runSeedBrawlers and runRepairShowdown. An error
-- ends the process by log.Fatal. Log lines are left out but for their counts.
use brawl_stars_guide.Base.{
  ℕ, suc, ◌+◌, Bool, true, ◌&&◌, not, Text, str_eq, List, [], ◌∷◌, ◌==◌, pos, Result, ok,
  if◌then◌else◌, length, any_where, keep_where, order_by, ltb,
}
use brawl_stars_guide.Apiclient.Types.{
  PlayerResponse, BattleLogResponse, BattleEntry, BattleParticipant, BrawlerItem,
  BrawlerListResponse,
}
use brawl_stars_guide.Apiclient.Tags.{normalize_tag}
use brawl_stars_guide.Storage.Schema.{Db, Battle}
use brawl_stars_guide.Storage.Statement.{Env, M, exec, handle, return, ◌>>=◌, ◌>>◌}
use brawl_stars_guide.Storage.Brawlers.{upsert_brawler}
use brawl_stars_guide.Storage.Battles.{insert_battle_participant}
use brawl_stars_guide.Ingestion.Runtime.{Runtime}
use brawl_stars_guide.Ingestion.Discovery.{BattleIngestor, new_battle_ingestor}
use brawl_stars_guide.Ingestion.Battle.{IngestResult, ingest_battle, flat_row, ensure_brawler}
use brawl_stars_guide.Ingestion.Player.{ingest_player}
use brawl_stars_guide.Crawler.Worker.{call}

-- The API client, by the number of the step.
pub record Api : Type 0 where
  pub player : ℕ → Text → Result PlayerResponse
  pub battle_log : ℕ → Text → Result BattleLogResponse
  pub brawlers : ℕ → Result BrawlerListResponse

-- The counters of runCollectPlayer.
pub record Collected : Type 0 where
  pub new_battles : ℕ
  pub skipped : ℕ
  pub errored : ℕ
  pub total_discoveries : ℕ

abbrev pub count_result : Collected → IngestResult → Collected
count_result c r = record {
  new_battles = if r.is_new then suc c.new_battles else c.new_battles;
  skipped = if r.is_new then c.skipped else suc c.skipped;
  errored = c.errored;
  total_discoveries = c.total_discoveries + length r.new_discoveries;
}

-- A bad entry is counted and does not abort the log.
unfoldable pub collect_entries :
    Runtime → Env → BattleIngestor → List BattleEntry → Collected → M Collected
collect_entries rt e b [] c = return c
collect_entries rt e b (entry ∷ entries) c =
    handle (ingest_battle rt e b entry)
      (λ x. collect_entries rt e b entries (record c { errored = suc c.errored }))
      (λ r. collect_entries rt e b entries (count_result c r))

abbrev pub none_collected : Collected
none_collected = record { new_battles = 0; skipped = 0; errored = 0; total_discoveries = 0 }

unfoldable pub run_collect_player : Runtime → Env → Api → Text → M Collected
run_collect_player rt e api raw_tag =
    let tag = normalize_tag rt.wide raw_tag in
    call (λ t. api.player t tag) >>= λ profile. ingest_player rt e profile >>= λ snapshot_id.
    call (λ t. api.battle_log t tag) >>= λ log.
    new_battle_ingestor tag (record { max_discoveries_per_crawl = pos 0 }) >>= λ b.
    collect_entries rt e b log.items none_collected

-- An error is logged, and the next brawler follows.
unfoldable pub seed_items : Env → List BrawlerItem → M (Unit {0})
seed_items e [] = return tt
seed_items e (b ∷ bs) =
    handle (upsert_brawler e b.id b.name "" "" true) (λ x. seed_items e bs) (λ u. seed_items e bs)

-- Its count is that of the list.
unfoldable pub run_seed_brawlers : Env → Api → M ℕ
run_seed_brawlers e api =
    call api.brawlers >>= λ resp. seed_items e resp.items >> return (length resp.items)

-- NOT EXISTS (SELECT 1 FROM battle_participants bp WHERE bp.battle_id = b.id)
abbrev pub is_deferred : Db → Battle → Bool
is_deferred d b =
    str_eq b.event_mode "soloShowdown" && not (any_where (λ p. p.battle_id == b.id) d.participants)

unfoldable pub deferred_battles : Env → M (List Battle)
deferred_battles e =
    exec e λ now d. (ok (order_by (λ a b. ltb a.id b.id) (keep_where (is_deferred d) d.battles)), d)

-- The counters of runRepairShowdown.
pub record Repaired : Type 0 where
  pub repaired : ℕ
  pub inserted : ℕ

abbrev pub one_inserted : Repaired → Repaired
one_inserted c = record c { inserted = suc c.inserted }

-- A participant whose statements fail is logged and left out.
unfoldable pub repair_players : Runtime → Env → ℕ → List BattleParticipant → Repaired → M Repaired
repair_players rt e id [] c = return c
repair_players rt e id (p ∷ ps) c =
    handle (ensure_brawler rt e p >> insert_battle_participant e (flat_row rt id p))
      (λ x. repair_players rt e id ps c) (λ u. repair_players rt e id ps (one_inserted c))

-- `readable` says that json.Unmarshal accepts the stored text of an entry, which it then gives back.
unfoldable pub repair_battles :
    Runtime → Env → (BattleEntry → Bool) → List Battle → Repaired → M Repaired
repair_battles rt e readable [] c = return c
repair_battles rt e readable (b ∷ bs) c =
    if readable b.raw_battle_data
    then (repair_players rt e b.id b.raw_battle_data.battle.players c >>= λ r.
        repair_battles rt e readable bs (record r { repaired = suc r.repaired }))
    else repair_battles rt e readable bs c

unfoldable pub run_repair_showdown : Runtime → Env → (BattleEntry → Bool) → M Repaired
run_repair_showdown rt e readable = deferred_battles e >>= λ bs.
    repair_battles rt e readable bs (record { repaired = 0; inserted = 0 })
