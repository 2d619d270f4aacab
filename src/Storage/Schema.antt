-- ===== src/Storage/Schema.antt =====
-- db/migrations/*.up.sql: a record for a row of each table that the code reads or writes, and the
-- database as the lists of rows. Times are nanoseconds. The ids that a sequence would give come from
-- one counter; they are only compared.
use brawl_stars_guide.Base.{ℕ, ℤ, Text, String, List, Option, Bool}
use brawl_stars_guide.Apiclient.Types.{BattleEntry, PlayerResponse, Gear}

pub record Player : Type 0 where
  pub tag : Text
  pub name : String
  pub first_seen_at : ℕ
  pub last_crawled_at : Option ℕ
  pub crawl_count : ℕ

-- The texts that the code writes to last_crawl_status and to WorkResult.Status; `unset` is "".
pub data Status : Type 0 where
  success sampled_out not_found rate_limited error empty ownership_lost shutdown unset : Status

-- crawl_targets. The int32 columns are bit patterns.
pub record Target : Type 0 where
  pub player_tag : Text
  pub priority : ℕ
  pub next_crawl_at : ℕ
  pub last_crawled_at : Option ℕ
  pub last_crawl_status : Option Status
  pub consecutive_failures : ℕ
  pub discovery_source : String
  pub discovery_via_player : Text
  pub trophy_estimate : Option ℤ
  pub player_trophy_bucket : Option ℕ
  pub crawl_count : ℕ
  pub is_active : Bool
  pub crawl_generation : ℕ
  pub leased_until : Option ℕ
  pub created_at : ℕ
  pub updated_at : ℕ

pub record Brawler : Type 0 where
  pub id : ℕ
  pub name : String
  pub rarity : Option String
  pub class : Option String
  pub is_active : Bool
  pub updated_at : ℕ

pub record Event : Type 0 where
  pub id : ℕ
  pub supercell_id : ℕ
  pub mode : String
  pub map_name : String
  pub updated_at : ℕ

pub record Patch : Type 0 where
  pub id : ℕ
  pub released_at : ℕ

-- raw_battle_data holds the entry itself, for its JSON.
pub record Battle : Type 0 where
  pub id : ℕ
  pub fingerprint : Text
  pub battle_time : ℕ
  pub event_id : Option ℕ
  pub event_mode : String
  pub event_map : String
  pub battle_type : String
  pub duration_seconds : Option ℕ
  pub star_player_tag : Option Text
  pub patch_id : Option ℕ
  pub trophy_change : Option ℤ
  pub trophy_change_player_tag : Option Text
  pub discovered_via_player_tag : Option Text
  pub raw_battle_data : BattleEntry

pub record BattleTeam : Type 0 where
  pub id : ℕ
  pub battle_id : ℕ
  pub team_index : ℕ
  pub result : String

pub record Participant : Type 0 where
  pub battle_id : ℕ
  pub team_id : Option ℕ
  pub player_tag : Text
  pub player_name : String
  pub brawler_id : Option ℕ
  pub brawler_power : Option ℕ
  pub brawler_trophies : Option ℤ
  pub is_star_player : Bool
  pub trophy_bucket : Option ℕ

pub record PlayerSnapshot : Type 0 where
  pub id : ℕ
  pub player_tag : Text
  pub snapshot_at : ℕ
  pub patch_id : Option ℕ
  pub trophies : ℤ
  pub highest_trophies : ℤ
  pub exp_level : ℕ
  pub three_v_three_wins : ℕ
  pub solo_victories : ℕ
  pub duo_victories : ℕ
  pub club_tag : Option Text
  pub club_name : Option String
  pub trophy_bucket : ℕ
  pub raw_data : PlayerResponse

pub record BrawlerSnapshot : Type 0 where
  pub snapshot_id : ℕ
  pub brawler_id : ℕ
  pub power : ℕ
  pub rank : ℕ
  pub trophies : ℤ
  pub highest_trophies : ℤ
  pub star_powers : List ℕ
  pub gadgets : List ℕ
  pub gears : List Gear

pub record Db : Type 0 where
  pub players : List Player
  pub targets : List Target
  pub brawlers : List Brawler
  pub patches : List Patch
  pub events : List Event
  pub battles : List Battle
  pub teams : List BattleTeam
  pub participants : List Participant
  pub snapshots : List PlayerSnapshot
  pub brawler_snapshots : List BrawlerSnapshot
  pub next_id : ℕ
