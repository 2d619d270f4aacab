-- ===== src/Ingestion/Battle.antt =====
-- ingestion/battle_ingestor.go: IngestBattle. Log lines are left out, and json.Marshal of an entry of
-- texts and numbers does not fail.
pub mod Effects
pub mod Budget
pub mod Consistency
pub mod Lasting
pub mod Rows
pub mod Stored
pub mod Entries
use brawl_stars_guide.Base.{
  ℕ, zero, suc, Bool, true, false, not, ◌&&◌, Text, text_eq, String, List, [], ◌∷◌, ◌++◌, map,
  Option, none, some, Error, other, Result, ok, err, ◌==◌, if◌then◌else◌, get_elem?,
}
use brawl_stars_guide.Apiclient.Types.{BattleEntry, BattleData, BattleParticipant}
use brawl_stars_guide.Apiclient.Tags.{normalize_tag}
use brawl_stars_guide.Apiclient.Times.{parse_battle_time}
use brawl_stars_guide.Domain.{bucket_for_trophies}
use brawl_stars_guide.Storage.Schema.{Participant}
use brawl_stars_guide.Storage.Statement.{Env, M, handle, pure, return, ◌>>=◌, ◌>>◌}
use brawl_stars_guide.Storage.Battles.{
  BattleParams, InsertBattleResult, upsert_event, insert_battle, insert_battle_team,
  insert_battle_participant,
}
use brawl_stars_guide.Storage.Brawlers.{ensure_retired_brawler}
use brawl_stars_guide.Storage.Patches.{patch_id_for_time}
use brawl_stars_guide.Ingestion.Runtime.{Runtime}
use brawl_stars_guide.Ingestion.Fingerprint.{BattleKey, compute_fingerprint}
use brawl_stars_guide.Ingestion.TeamResults.{resolve_team_results}
use brawl_stars_guide.Ingestion.Discovery.{BattleIngestor, discover_player}

pub record IngestResult : Type 0 where
  pub fingerprint : Text
  pub is_new : Bool
  pub has_participant_rows : Bool
  pub new_discoveries : List Text

abbrev tags_of : List BattleParticipant → List Text
tags_of = map (λ p. p.tag)

unfoldable pub team_tags : List (List BattleParticipant) → List Text
team_tags [] = []
team_tags (team ∷ teams) = tags_of team ++ team_tags teams

unfoldable pub collect_participant_tags : BattleData → List Text
unfolding team_tags
collect_participant_tags battle = team_tags battle.teams ++ tags_of battle.players

abbrev pub nullable_int : ℕ → Option ℕ
nullable_int n = if n == 0 then none else some n

-- The `if p.Brawler.ID != 0` before a participant is written.
unfoldable pub ensure_brawler : Runtime → Env → BattleParticipant → M (Unit {0})
ensure_brawler rt e p =
    if p.brawler.id == 0
    then return tt
    else ensure_retired_brawler e rt.show_brawler p.brawler.id p.brawler.name

abbrev is_star : Option Text → Text → Bool
is_star none tag = false
is_star (some star) tag = text_eq star tag

-- The row of a participant in a team. The brawler's columns are not NULL, also for the id 0.
unfoldable pub team_row : Runtime → ℕ → ℕ → Option Text → BattleParticipant → Participant
team_row rt battle_id team_id star p = record {
  battle_id = battle_id;
  team_id = some team_id;
  player_tag = normalize_tag rt.wide p.tag;
  player_name = p.name;
  brawler_id = some p.brawler.id;
  brawler_power = some p.brawler.power;
  brawler_trophies = some p.brawler.trophies;
  is_star_player = is_star star (normalize_tag rt.wide p.tag);
  trophy_bucket = some (bucket_for_trophies p.brawler.trophies);
}

-- The row of a participant with no team. The brawler's columns are NULL for the id 0.
unfoldable pub flat_row : Runtime → ℕ → BattleParticipant → Participant
flat_row rt battle_id p =
    let known = not (p.brawler.id == 0) in
    record {
      battle_id = battle_id;
      team_id = none;
      player_tag = normalize_tag rt.wide p.tag;
      player_name = p.name;
      brawler_id = if known then some p.brawler.id else none;
      brawler_power = if known then some p.brawler.power else none;
      brawler_trophies = if known then some p.brawler.trophies else none;
      is_star_player = false;
      trophy_bucket = if known then some (bucket_for_trophies p.brawler.trophies) else none;
    }

-- The body of the inner loop, which both branches share: brawler, row, discovery.
unfoldable pub write_participant :
    Runtime → Env → BattleIngestor → Participant → BattleParticipant → List Text → M (List Text)
write_participant rt e b row p found = do
  ensure_brawler rt e p
  insert_battle_participant e row
  discover_player e b row.player_tag p.name found

unfoldable pub write_team :
    Runtime
    → Env
    → BattleIngestor
    → ℕ
    → ℕ
    → Option Text
    → List BattleParticipant
    → List Text
    → M (List Text)
write_team rt e b battle_id team_id star [] found = return found
write_team rt e b battle_id team_id star (p ∷ ps) found =
    write_participant rt e b (team_row rt battle_id team_id star p) p found
    >>= write_team rt e b battle_id team_id star ps

-- teamResults[teamIdx], a map that gives "" for a missing key.
abbrev result_at : List String → ℕ → String
result_at results i = elim (get_elem? results i) [ none ↦ "" | some r ↦ r ]

unfoldable pub write_teams :
    Runtime
    → Env
    → BattleIngestor
    → ℕ
    → Option Text
    → List String
    → ℕ
    → List (List BattleParticipant)
    → List Text
    → M (List Text)
write_teams rt e b battle_id star results i [] found = return found
write_teams rt e b battle_id star results i (team ∷ teams) found =
    insert_battle_team e battle_id i (result_at results i) >>= λ team_id.
    write_team rt e b battle_id team_id star team found
    >>= write_teams rt e b battle_id star results (suc i) teams

unfoldable pub write_players :
    Runtime → Env → BattleIngestor → ℕ → List BattleParticipant → List Text → M (List Text)
write_players rt e b battle_id [] found = return found
write_players rt e b battle_id (p ∷ ps) found =
    write_participant rt e b (flat_row rt battle_id p) p found >>= write_players rt e b battle_id ps

unfoldable pub star_player_tag : Runtime → BattleData → Option Text
star_player_tag rt battle = elim battle.star_player [
  | none ↦ none
  | some p ↦ some (normalize_tag rt.wide p.tag)
]

-- The switch over the structure of the battle.
unfoldable pub write_rows :
    Runtime
    → Env
    → BattleIngestor
    → ℕ
    → BattleData
    → List (List BattleParticipant)
    → List BattleParticipant
    → M (List Text)
write_rows rt e b battle_id battle [] [] = pure (err other)
write_rows rt e b battle_id battle [] (p ∷ ps) = write_players rt e b battle_id (p ∷ ps) []
write_rows rt e b battle_id battle (team ∷ teams) ps =
    write_teams rt e b battle_id (star_player_tag rt battle)
      (resolve_team_results rt.wide (team ∷ teams) battle.result b.discoverer_tag) 0 (team ∷ teams)
      []

unfoldable pub battle_params :
    Runtime → BattleIngestor → BattleEntry → Text → ℕ → ℕ → Option ℕ → BattleParams
battle_params rt b entry fingerprint time event_id patch_id = record {
  fingerprint = fingerprint;
  battle_time = time;
  event_id = some event_id;
  event_mode = entry.event.mode;
  event_map = entry.event.map_name;
  battle_type = entry.battle.type;
  duration_seconds = nullable_int entry.battle.duration;
  star_player_tag = star_player_tag rt entry.battle;
  patch_id = patch_id;
  trophy_change = entry.battle.trophy_change;
  trophy_change_player_tag = some b.discoverer_tag;
  discovered_via_player_tag = some b.discoverer_tag;
  raw_battle_data = entry;
}

-- From the insertion of the battle's row on.
unfoldable pub write_battle :
    Runtime → Env → BattleIngestor → BattleEntry → Text → ℕ → ℕ → Option ℕ → M IngestResult
write_battle rt e b entry fingerprint time event_id patch_id =
    insert_battle e (battle_params rt b entry fingerprint time event_id patch_id) >>= λ r.
    write_rows rt e b r.battle_id entry.battle entry.battle.teams entry.battle.players >>= λ found.
    return (record {
      fingerprint = fingerprint;
      is_new = r.is_new;
      has_participant_rows = true;
      new_discoveries = found;
    })

abbrev pub fingerprint_of : Runtime → BattleEntry → ℕ → List Text → Text
fingerprint_of rt entry time tags =
    compute_fingerprint rt
      (record { battle_time = time; supcell_event_id = entry.event.id; participant_tags = tags })

-- From the event on, with the tags that were found. A failed patch lookup is only logged.
unfoldable pub ingest_tags :
    Runtime → Env → BattleIngestor → BattleEntry → ℕ → List Text → M IngestResult
ingest_tags rt e b entry time [] = pure (err other)
ingest_tags rt e b entry time (tag ∷ tags) =
    let fingerprint = fingerprint_of rt entry time (tag ∷ tags) in
    upsert_event e entry.event.id entry.event.mode entry.event.map_name >>= λ event_id.
    handle (patch_id_for_time e time)
      (λ x. write_battle rt e b entry fingerprint time event_id none)
      (λ patch_id. write_battle rt e b entry fingerprint time event_id patch_id)

unfoldable pub ingest_battle : Runtime → Env → BattleIngestor → BattleEntry → M IngestResult
ingest_battle rt e b entry = elim (parse_battle_time rt.parse_time entry.battle_time) [
  | none ↦ pure (err other)
  | some time ↦ ingest_tags rt e b entry time (collect_participant_tags entry.battle)
]
