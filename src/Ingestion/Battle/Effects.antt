-- ===== src/Ingestion/Battle/Effects.antt =====
-- ingestion/battle_ingestor.go: from what its statements keep to what IngestBattle keeps.
use brawl_stars_guide.Base.{
  ℕ, suc, Text, String, List, [], ◌∷◌, Option, none, some, refl, ◌==◌, Bool-cases, inl, inr, ◌≡◌,
}
use brawl_stars_guide.Apiclient.Types.{BattleEntry, BattleData, BattleParticipant}
use brawl_stars_guide.Storage.Schema.{Db, Event, BattleTeam, Participant}
use brawl_stars_guide.Storage.Statement.{Env, World}
use brawl_stars_guide.Storage.Statement.Keeps.{Keeps, handle-keeps, bind-keeps}
use brawl_stars_guide.Storage.Battles.{
  upsert_event_row, upsert_team_row, BattleParams, upsert_event, insert_battle, insert_battle_team,
  insert_battle_participant,
}
use brawl_stars_guide.Storage.Brawlers.{ensure_retired_brawler}
use brawl_stars_guide.Storage.Patches.{patch_id_for_time}
use brawl_stars_guide.Apiclient.Times.{parse_battle_time}
use brawl_stars_guide.Ingestion.Runtime.{Runtime}
use brawl_stars_guide.Ingestion.Discovery.{BattleIngestor, discover_player}
use brawl_stars_guide.Ingestion.Battle.{
  ensure_brawler, write_participant, write_team, write_teams, write_players, write_rows,
  write_battle, ingest_tags, ingest_battle,
}

-- The upserts of an event and of a team leave crawl_targets as it is.
pub event-targets :
    (id : ℕ) (mode map_name : String) (now : ℕ) (d : Db) (o : Option Event)
    → (upsert_event_row id mode map_name now d o).1.targets ≡ d.targets
event-targets id mode map_name now d none = refl
event-targets id mode map_name now d (some v) = refl

pub team-targets :
    (id i : ℕ) (result : String) (d : Db) (o : Option BattleTeam)
    → (upsert_team_row id i result d o).1.targets ≡ d.targets
team-targets id i result d none = refl
team-targets id i result d (some t) = refl

-- The statements of IngestBattle, each keeping P.
pub record BattleOps (P : World → Type 0) (rt : Runtime) (e : Env) (b : BattleIngestor)
    : Type 0 where
  pub event : (id : ℕ) (mode map_name : String) → Keeps P (upsert_event e id mode map_name)
  pub patch : (t : ℕ) → Keeps P (patch_id_for_time e t)
  pub battle : (p : BattleParams) → Keeps P (insert_battle e p)
  pub team : (id i : ℕ) (result : String) → Keeps P (insert_battle_team e id i result)
  pub brawler :
      (id : ℕ) (name : String) → Keeps P (ensure_retired_brawler e rt.show_brawler id name)
  pub participant : (p : Participant) → Keeps P (insert_battle_participant e p)
  pub discovery :
      (tag : Text) (name : String) (found : List Text)
      → Keeps P (discover_player e b tag name found)

module _ (P : World → Type 0) (rt : Runtime) (e : Env) (b : BattleIngestor)
    (o : BattleOps P rt e b) where
  ensure-keeps : (p : BattleParticipant) → Keeps P (ensure_brawler rt e p)
  unfolding ensure_brawler
  ensure-keeps p w h = elim (Bool-cases (p.brawler.id == 0)) [
    | inl z ↦ rw (z, ensure_brawler) h
    | inr nz ↦ rw (nz, ensure_brawler) (o.brawler p.brawler.id p.brawler.name w h)
  ]

  pub participant-keeps :
      (row : Participant) (p : BattleParticipant) (found : List Text)
      → Keeps P (write_participant rt e b row p found)
  unfolding write_participant
  participant-keeps row p found =
      bind-keeps P _ _ (ensure-keeps p)
        λ u. bind-keeps P _ _ (o.participant row) λ v. o.discovery row.player_tag p.name found

  pub team-keeps :
      (battle_id team_id : ℕ) (star : Option Text) (ps : List BattleParticipant) (found : List Text)
      → Keeps P (write_team rt e b battle_id team_id star ps found)
  unfolding write_team
  team-keeps battle_id team_id star [] found = λ w h. h
  team-keeps battle_id team_id star (p ∷ ps) found =
      bind-keeps P _ _ (participant-keeps _ p found) (team-keeps battle_id team_id star ps)

  pub teams-keeps :
      (battle_id : ℕ) (star : Option Text) (results : List String) (i : ℕ)
      (teams : List (List BattleParticipant)) (found : List Text)
      → Keeps P (write_teams rt e b battle_id star results i teams found)
  unfolding write_teams
  teams-keeps battle_id star results i [] found = λ w h. h
  teams-keeps battle_id star results i (team ∷ teams) found =
      bind-keeps P _ _ (o.team battle_id i _) λ team_id.
        bind-keeps P _ _ (team-keeps battle_id team_id star team found)
          (teams-keeps battle_id star results (suc i) teams)

  pub players-keeps :
      (battle_id : ℕ) (ps : List BattleParticipant) (found : List Text)
      → Keeps P (write_players rt e b battle_id ps found)
  unfolding write_players
  players-keeps battle_id [] found = λ w h. h
  players-keeps battle_id (p ∷ ps) found =
      bind-keeps P _ _ (participant-keeps _ p found) (players-keeps battle_id ps)

  pub rows-keeps :
      (battle_id : ℕ) (battle : BattleData) (teams : List (List BattleParticipant))
      (ps : List BattleParticipant)
      → Keeps P (write_rows rt e b battle_id battle teams ps)
  unfolding write_rows
  rows-keeps battle_id battle [] [] = λ w h. h
  rows-keeps battle_id battle [] (p ∷ ps) = players-keeps battle_id (p ∷ ps) []
  rows-keeps battle_id battle (team ∷ teams) ps = teams-keeps battle_id _ _ 0 (team ∷ teams) []

  battle-keeps :
      (entry : BattleEntry) (fp : Text) (time event_id : ℕ) (patch_id : Option ℕ)
      → Keeps P (write_battle rt e b entry fp time event_id patch_id)
  unfolding write_battle
  battle-keeps entry fp time event_id patch_id =
      bind-keeps P _ _ (o.battle _)
        λ r. bind-keeps P _ _ (rows-keeps r.battle_id entry.battle _ _) (λ found w h. h)

  tags-keeps :
      (entry : BattleEntry) (time : ℕ) (tags : List Text)
      → Keeps P (ingest_tags rt e b entry time tags)
  unfolding ingest_tags
  tags-keeps entry time [] = λ w h. h
  tags-keeps entry time (tag ∷ tags) = bind-keeps P _ _ (o.event _ _ _) λ event_id.
      handle-keeps P _ _ _ (o.patch time) (λ x. battle-keeps entry _ time event_id none)
        (battle-keeps entry _ time event_id)

  pub ingest_battle-keeps : (entry : BattleEntry) → Keeps P (ingest_battle rt e b entry)
  unfolding ingest_battle
  ingest_battle-keeps entry = go (parse_battle_time rt.parse_time entry.battle_time) refl
    where
      go :
          (t : Option ℕ)
          → parse_battle_time rt.parse_time entry.battle_time ≡ t
          → Keeps P (ingest_battle rt e b entry)
      go none q w h = rw (q, ingest_battle) h
      go (some time) q w h = rw (q, ingest_battle) (tags-keeps entry time _ w h)
