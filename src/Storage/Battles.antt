-- ===== src/Storage/Battles.antt =====
-- storage/queries/battles.go: battles, their teams and their participants.
use brawl_stars_guide.Base.{
  ℕ, suc, Bool, true, false, ◌&&◌, Text, text_eq, String, str_eq, Option, none, some, [], ◌∷◌, ◌++◌,
  ℤ, Error, no_rows, other, Result, ok, err, ◌==◌, if◌then◌else◌, any_where, update_where,
  find_where, length,
}
use brawl_stars_guide.Apiclient.Types.{BattleEntry}
use brawl_stars_guide.Storage.Schema.{Db, Event, Battle, BattleTeam, Participant}
use brawl_stars_guide.Storage.Statement.{Env, M, Statement, exec, handle, pure, ◌>>=◌, return}
use brawl_stars_guide.Storage.Players.{player_is}

abbrev pub event_key : ℕ → String → String → Event → Bool
event_key supercell_id mode map_name v =
    v.supercell_id == supercell_id && str_eq v.mode mode && str_eq v.map_name map_name

abbrev pub upsert_event_row : ℕ → String → String → ℕ → Db → Option Event → Result ℕ × Db
upsert_event_row supercell_id mode map_name now db (some v) = (
  ok v.id,
  record db {
    events =
        update_where (event_key supercell_id mode map_name) (λ u. record u { updated_at = now })
          db.events;
  },
)
upsert_event_row supercell_id mode map_name now db none = (
  ok db.next_id,
  record db {
    events =
        db.events
        ++ record {
          id = db.next_id;
          supercell_id = supercell_id;
          mode = mode;
          map_name = map_name;
          updated_at = now;
        }
          ∷ [];
    next_id = suc db.next_id;
  },
)

unfoldable pub upsert_event : Env → ℕ → String → String → M ℕ
upsert_event e supercell_id mode map_name = exec e λ now db.
    upsert_event_row supercell_id mode map_name now db
      (find_where (event_key supercell_id mode map_name) db.events)

pub record BattleParams : Type 0 where
  pub fingerprint : Text
  pub battle_time : ℕ
  pub event_id : Option ℕ
  pub event_mode : String
  pub event_map : String
  pub battle_type : String
  pub duration_seconds : Option ℕ
  pub star_player_tag : Option Text
  pub patch_id : Option ℕ
  pub trophy_change : Option ℤ
  pub trophy_change_player_tag : Option Text
  pub discovered_via_player_tag : Option Text
  pub raw_battle_data : BattleEntry

pub record InsertBattleResult : Type 0 where
  pub battle_id : ℕ
  pub is_new : Bool

abbrev pub battle_row : ℕ → BattleParams → Battle
battle_row id p = record {
  id = id;
  fingerprint = p.fingerprint;
  battle_time = p.battle_time;
  event_id = p.event_id;
  event_mode = p.event_mode;
  event_map = p.event_map;
  battle_type = p.battle_type;
  duration_seconds = p.duration_seconds;
  star_player_tag = p.star_player_tag;
  patch_id = p.patch_id;
  trophy_change = p.trophy_change;
  trophy_change_player_tag = p.trophy_change_player_tag;
  discovered_via_player_tag = p.discovered_via_player_tag;
  raw_battle_data = p.raw_battle_data;
}

abbrev pub battle_is : Text → Battle → Bool
battle_is fp b = text_eq b.fingerprint fp

-- The foreign key of discovered_via_player_tag; NULL satisfies it.
abbrev pub via_known : Db → Option Text → Bool
via_known db none = true
via_known db (some tag) = any_where (player_is tag) db.players

-- INSERT … ON CONFLICT (fingerprint) DO NOTHING RETURNING id
unfoldable pub insert_battle_statement : BattleParams → Statement ℕ
insert_battle_statement p now db =
    if any_where (battle_is p.fingerprint) db.battles
    then (err no_rows, db)
    else if via_known db p.discovered_via_player_tag
    then (
      ok db.next_id,
      record db { battles = db.battles ++ battle_row db.next_id p ∷ []; next_id = suc db.next_id },
    )
    else (err other, db)

abbrev pub found_id : Option Battle → Result ℕ
found_id none = err no_rows
found_id (some b) = ok b.id

unfoldable pub battle_id_by_fingerprint : Env → Text → M ℕ
battle_id_by_fingerprint e fp =
    exec e (λ now db. (found_id (find_where (battle_is fp) db.battles), db))

abbrev pub after_conflict : Env → Text → Error → M InsertBattleResult
after_conflict e fp x = elim x [
  | no_rows ↦
      battle_id_by_fingerprint e fp >>= λ id. return (record { battle_id = id; is_new = false })
  | y ↦ pure (err y)
]

unfoldable pub insert_battle : Env → BattleParams → M InsertBattleResult
insert_battle e p =
    handle (exec e (insert_battle_statement p)) (after_conflict e p.fingerprint)
      (λ id. return (record { battle_id = id; is_new = true }))

abbrev pub team_key : ℕ → ℕ → BattleTeam → Bool
team_key battle_id team_index t = t.battle_id == battle_id && t.team_index == team_index

abbrev pub upsert_team_row : ℕ → ℕ → String → Db → Option BattleTeam → Result ℕ × Db
upsert_team_row battle_id team_index result db (some t) = (
  ok t.id,
  record db {
    teams =
        update_where (team_key battle_id team_index) (λ u. record u { result = result }) db.teams;
  },
)
upsert_team_row battle_id team_index result db none = (
  ok db.next_id,
  record db {
    teams =
        db.teams
        ++ record {
          id = db.next_id;
          battle_id = battle_id;
          team_index = team_index;
          result = result;
        }
          ∷ [];
    next_id = suc db.next_id;
  },
)

unfoldable pub team_statement : ℕ → ℕ → String → Statement ℕ
team_statement battle_id team_index result now db =
    upsert_team_row battle_id team_index result db
      (find_where (team_key battle_id team_index) db.teams)

unfoldable pub insert_battle_team : Env → ℕ → ℕ → String → M ℕ
insert_battle_team e battle_id team_index result =
    exec e (team_statement battle_id team_index result)

abbrev pub participant_is : ℕ → Text → Participant → Bool
participant_is battle_id tag p = p.battle_id == battle_id && text_eq p.player_tag tag

-- The foreign key of brawler_id; NULL satisfies it.
abbrev pub brawler_known : Db → Option ℕ → Bool
brawler_known db none = true
brawler_known db (some id) = any_where (λ b. b.id == id) db.brawlers

-- ON CONFLICT (battle_id, player_tag) DO NOTHING. The parameters are the row's columns.
unfoldable pub participant_statement : Participant → Statement (Unit {0})
participant_statement p now db =
    if any_where (participant_is p.battle_id p.player_tag) db.participants
    then (ok tt, db)
    else if brawler_known db p.brawler_id
    then (ok tt, record db { participants = db.participants ++ p ∷ [] })
    else (err other, db)

unfoldable pub insert_battle_participant : Env → Participant → M (Unit {0})
insert_battle_participant e p = exec e (participant_statement p)

unfoldable pub count_battles : Env → M ℕ
count_battles e = exec e (λ now db. (ok (length db.battles), db))
