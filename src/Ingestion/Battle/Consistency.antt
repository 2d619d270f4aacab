-- ===== src/Ingestion/Battle/Consistency.antt =====
-- ingestion/battle_ingestor.go: the keys of the tables over IngestBattle.
use brawl_stars_guide.Base.{
  ℕ, true, false, Text, text_eq, String, List, Option, none, some, Bool, Bool-cases, inl, inr,
  Error, no_rows, api_error, global_halt, other,
}
use brawl_stars_guide.Apiclient.Types.{BattleEntry}
use brawl_stars_guide.Storage.Schema.{Db, Event, BattleTeam}
use brawl_stars_guide.Storage.Statement.{Env, World, Statement, exec}
use brawl_stars_guide.Storage.Statement.Keeps.{Keeps, exec-keeps_db, handle-keeps, bind-keeps}
use brawl_stars_guide.Storage.Players.{enqueue_discovered_player}
use brawl_stars_guide.Storage.Battles.{
  BattleParams, insert_battle, after_conflict, battle_id_by_fingerprint, upsert_event,
  upsert_event_row, insert_battle_team, team_statement, upsert_team_row, insert_battle_participant,
}
use brawl_stars_guide.Storage.Brawlers.{ensure_retired_brawler}
use brawl_stars_guide.Storage.Patches.{patch_id_for_time}
use brawl_stars_guide.Storage.Consistency.{
  Consistent, other_tables, insert_battle-Consistent, participant-Consistent, ensure-Consistent,
  enqueue-Consistent,
}
use brawl_stars_guide.Ingestion.Runtime.{Runtime}
use brawl_stars_guide.Ingestion.Discovery.{
  BattleIngestor, discover_player, try_enqueue, exhausted, count_discovery,
}
use brawl_stars_guide.Ingestion.Battle.{ingest_battle}
use brawl_stars_guide.Ingestion.Battle.Effects.{BattleOps, ingest_battle-keeps}

-- The other transactions keep the keys.
abbrev pub Respectful : Env → Type 0
Respectful e = (n : ℕ) (d : Db) → Consistent d → Consistent (e.others n d)

abbrev pub Sound : World → Type 0
Sound w = Consistent w.db

pub by_statement :
    {A : Type 0} (e : Env) (respect : Respectful e) (s : Statement A)
    → ((now : ℕ) (d : Db) → Consistent d → Consistent (s now d).1)
    → Keeps Sound (exec e s)
by_statement e respect s h = exec-keeps_db Consistent e s respect h

module _ (rt : Runtime) (e : Env) (b : BattleIngestor) (respect : Respectful e) where
  enqueue-Sound :
      (tag : Text) (name source : String) (via : Text)
      → Keeps Sound (enqueue_discovered_player e tag name source via)
  unfolding enqueue_discovered_player
  enqueue-Sound tag name source via =
      bind-keeps Sound _ _ (by_statement e respect _ λ now d h. other_tables d _ _ _ _ _ _ h)
        (λ u. by_statement e respect _ (enqueue-Consistent tag source via))

  discover-Sound :
      (tag : Text) (name : String) (found : List Text)
      → Keeps Sound (discover_player e b tag name found)
  unfolding discover_player try_enqueue
  discover-Sound tag name found w h = elim (Bool-cases (text_eq tag b.discoverer_tag)) [
    | inl own ↦ rw (own, discover_player) h
    | inr another ↦ elim (Bool-cases (exhausted b.cfg w.discoveries)) [
      | inl full ↦ rw (another, discover_player) (rw (full) h)
      | inr room ↦
          rw (another, discover_player)
            (rw (room)
              (handle-keeps Sound _ _ _ (enqueue-Sound tag name _ _) (λ x v q. q) counted w h))
    ]
  ]
    where
      counted : (fresh : Bool) → Keeps Sound (count_discovery tag found fresh)
      counted true v q = q
      counted false v q = q

  event-Consistent :
      (id : ℕ) (mode map_name : String) (now : ℕ) (d : Db) (o : Option Event)
      → Consistent d
      → Consistent (upsert_event_row id mode map_name now d o).1
  event-Consistent id mode map_name now d none h = other_tables d _ _ _ _ _ _ h
  event-Consistent id mode map_name now d (some v) h = other_tables d _ _ _ _ _ _ h

  team-Consistent :
      (id i : ℕ) (result : String) (d : Db) (o : Option BattleTeam)
      → Consistent d
      → Consistent (upsert_team_row id i result d o).1
  team-Consistent id i result d none h = other_tables d _ _ _ _ _ _ h
  team-Consistent id i result d (some t) h = other_tables d _ _ _ _ _ _ h

  conflict-Sound : (fp : Text) (x : Error) → Keeps Sound (after_conflict e fp x)
  unfolding battle_id_by_fingerprint
  conflict-Sound fp no_rows =
      bind-keeps Sound _ _ (by_statement e respect _ (λ now d h. h)) (λ id w h. h)
  conflict-Sound fp (api_error c p) = λ w h. h
  conflict-Sound fp global_halt = λ w h. h
  conflict-Sound fp other = λ w h. h

  battle-Sound : (p : BattleParams) → Keeps Sound (insert_battle e p)
  unfolding insert_battle
  battle-Sound p =
      handle-keeps Sound _ _ _ (by_statement e respect _ (insert_battle-Consistent p))
        (conflict-Sound p.fingerprint) (λ id w h. h)

  pub key_ops : BattleOps Sound rt e b
  unfolding upsert_event patch_id_for_time insert_battle_team team_statement ensure_retired_brawler
      insert_battle_participant
  key_ops = record {
    event = λ id mode map_name.
        by_statement e respect _ (λ now d. event-Consistent id mode map_name now d _);
    patch = λ t. by_statement e respect _ (λ now d h. h);
    battle = battle-Sound;
    team = λ id i result. by_statement e respect _ (λ now d. team-Consistent id i result d _);
    brawler = λ id name. by_statement e respect _ (ensure-Consistent id _);
    participant = λ p. by_statement e respect _ (participant-Consistent p);
    discovery = discover-Sound;
  }

-- IngestBattle keeps the tables consistent on every path, whichever of its statements fail: no
-- fingerprint is stored twice, no participant twice for a battle, no target twice for a tag, no brawler
-- twice for an id, and every participant's brawler is in the reference table; the transactions of others are assumed to do so.
pub ingest_battle-Consistent :
    (rt : Runtime) (e : Env) (b : BattleIngestor) (entry : BattleEntry) (w : World)
    → Respectful e
    → Consistent w.db
    → Consistent (ingest_battle rt e b entry w).1.db
ingest_battle-Consistent rt e b entry w respect h =
    ingest_battle-keeps Sound rt e b (key_ops rt e b respect) entry w h
