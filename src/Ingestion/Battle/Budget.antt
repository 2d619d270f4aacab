-- ===== src/Ingestion/Battle/Budget.antt =====
-- ingestion/battle_ingestor.go: the budget of discoveries over a whole battle log.
use brawl_stars_guide.Base.{
  ℕ, suc, ◌+◌, ◌≤◌, ◌≡◌, refl, Text, List, [], ◌∷◌, pos, Error, no_rows, api_error, global_halt,
  other, arith,
}
use brawl_stars_guide.Apiclient.Types.{BattleEntry}
use brawl_stars_guide.Storage.Schema.{Db}
use brawl_stars_guide.Storage.Statement.{Env, World}
use brawl_stars_guide.Storage.Statement.Keeps.{Keeps, handle-keeps, bind-keeps}
use brawl_stars_guide.Storage.Battles.{
  upsert_event, insert_battle, insert_battle_statement, insert_battle_team, team_statement,
  insert_battle_participant, participant_statement, battle_id_by_fingerprint, after_conflict,
}
use brawl_stars_guide.Storage.Brawlers.{ensure_retired_brawler, ensure_statement}
use brawl_stars_guide.Storage.Patches.{patch_id_for_time}
use brawl_stars_guide.Ingestion.Runtime.{Runtime}
use brawl_stars_guide.Ingestion.Discovery.{BattleIngestor}
use brawl_stars_guide.Ingestion.Discovery.Budget.{
  discovered, Counted, elsewhere-Counted, discover_player-Counted,
}
use brawl_stars_guide.Ingestion.Battle.{ingest_battle}
use brawl_stars_guide.Ingestion.Battle.Effects.{
  event-targets, team-targets, BattleOps, ingest_battle-keeps,
}

module _ (from rows budget : ℕ) (rt : Runtime) (e : Env) (b : BattleIngestor)
    (m : b.cfg.max_discoveries_per_crawl ≡ pos (suc budget))
    (others : (n : ℕ) (d : Db)
      → discovered b.discoverer_tag (e.others n d) ≤ discovered b.discoverer_tag d) where
  abbrev pub Within : World → Type 0
  Within = Counted b.discoverer_tag from rows (λ n. n ≤ suc budget)

  conflict-Within : (fp : Text) (x : Error) → Keeps Within (after_conflict e fp x)
  unfolding battle_id_by_fingerprint
  conflict-Within fp no_rows =
      bind-keeps Within _ _
        (elsewhere-Counted b.discoverer_tag from rows e others _ _ (λ now d. refl)) (λ id w h. h)
  conflict-Within fp (api_error c p) = λ w h. h
  conflict-Within fp global_halt = λ w h. h
  conflict-Within fp other = λ w h. h

  pub budget_ops : BattleOps Within rt e b
  unfolding upsert_event patch_id_for_time insert_battle insert_battle_statement insert_battle_team
      team_statement ensure_retired_brawler ensure_statement insert_battle_participant
      participant_statement
  budget_ops = record {
    event = λ id mode map_name.
        elsewhere-Counted b.discoverer_tag from rows e others _ _
          (λ now d. event-targets id mode map_name now d _);
    patch = λ t. elsewhere-Counted b.discoverer_tag from rows e others _ _ (λ now d. refl);
    battle = λ p.
        handle-keeps Within _ _ _
          (elsewhere-Counted b.discoverer_tag from rows e others _ _ (λ now d. ground arith))
          (conflict-Within p.fingerprint) (λ id w h. h);
    team = λ id i result.
        elsewhere-Counted b.discoverer_tag from rows e others _ _
          (λ now d. team-targets id i result d _);
    brawler = λ id name.
        elsewhere-Counted b.discoverer_tag from rows e others _ _ (λ now d. ground arith);
    participant =
        λ p. elsewhere-Counted b.discoverer_tag from rows e others _ _ (λ now d. ground arith);
    discovery = λ tag name found.
        discover_player-Counted b.discoverer_tag from rows e others budget b tag name found m refl;
  }

-- The entries of a log one after another, whether or not each is ingested.
pub ingest_all : Runtime → Env → BattleIngestor → List BattleEntry → World → World
ingest_all rt e b [] w = w
ingest_all rt e b (entry ∷ entries) w = ingest_all rt e b entries (ingest_battle rt e b entry w).1

ingest_all-keeps :
    (P : World → Type 0) (rt : Runtime) (e : Env) (b : BattleIngestor)
    → BattleOps P rt e b
    → (entries : List BattleEntry) (w : World) → P w
    → P (ingest_all rt e b entries w)
unfolding ingest_all
ingest_all-keeps P rt e b o [] w h = h
ingest_all-keeps P rt e b o (entry ∷ entries) w h =
    ingest_all-keeps P rt e b o entries _ (ingest_battle-keeps P rt e b o entry w h)

-- An ingestor with a positive budget inserts no more targets of discovered players than what is left of
-- it, over any number of battles, whichever statements fail, also where the caller goes on after an
-- entry that failed: by its counter, and by the targets in the table that name its player as their
-- discoverer. Others may do to the database what they like meanwhile, but add no target discovered by
-- the same player.
pub ingest_all-WithinBudget :
    (budget : ℕ) (rt : Runtime) (e : Env) (b : BattleIngestor) (entries : List BattleEntry)
    (w : World)
    → b.cfg.max_discoveries_per_crawl ≡ pos (suc budget)
    → w.discoveries ≤ suc budget
    → ((n : ℕ) (d : Db)
        → discovered b.discoverer_tag (e.others n d) ≤ discovered b.discoverer_tag d)
    → let v = ingest_all rt e b entries w in
      (v.discoveries ≤ suc budget)
      × (discovered b.discoverer_tag v.db + w.discoveries
          ≤ discovered b.discoverer_tag w.db + suc budget)
ingest_all-WithinBudget budget rt e b entries w m start others =
    let from = w.discoveries in
    let rows = discovered b.discoverer_tag w.db in
    let (known, within) =
      ingest_all-keeps (Within from rows budget rt e b m others) rt e b
        (budget_ops from rows budget rt e b m others) entries w (omega arith, start) in
    (within, omega arith)
