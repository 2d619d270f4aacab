-- ===== src/Apiclient/Types.antt =====
-- apiclient/types.go. Identifiers, counts and levels are not negative; trophies are Go's `int`. A tag
-- is a `Text`, since the code takes it apart; other strings are only compared and stored.
use brawl_stars_guide.Base.{ℕ, ℤ, Text, String, List, Option}

pub record PlayerClub : Type 0 where
  pub tag : Text
  pub name : String

pub record StarPower : Type 0 where
  pub id : ℕ
  pub name : String

pub record Gadget : Type 0 where
  pub id : ℕ
  pub name : String

pub record Gear : Type 0 where
  pub id : ℕ
  pub name : String
  pub level : ℕ

pub record PlayerBrawler : Type 0 where
  pub id : ℕ
  pub name : String
  pub power : ℕ
  pub rank : ℕ
  pub trophies : ℤ
  pub highest_trophies : ℤ
  pub star_powers : List StarPower
  pub gadgets : List Gadget
  pub gears : List Gear

pub record PlayerResponse : Type 0 where
  pub tag : Text
  pub name : String
  pub trophies : ℤ
  pub highest_trophies : ℤ
  pub exp_level : ℕ
  pub three_v_three_wins : ℕ
  pub solo_victories : ℕ
  pub duo_victories : ℕ
  pub club : Option PlayerClub
  pub brawlers : List PlayerBrawler

-- The brawler of a participant; id 0 means that none can be named.
pub record BrawlerInBattle : Type 0 where
  pub id : ℕ
  pub name : String
  pub power : ℕ
  pub trophies : ℤ

pub record BattleParticipant : Type 0 where
  pub tag : Text
  pub name : String
  pub brawler : BrawlerInBattle

pub record BattleData : Type 0 where
  pub mode : String
  pub type : String
  pub result : String
  pub duration : ℕ
  pub trophy_change : Option ℤ
  pub star_player : Option BattleParticipant
  pub teams : List (List BattleParticipant)
  pub players : List BattleParticipant
  pub rank : Option ℕ

pub record BattleEvent : Type 0 where
  pub id : ℕ
  pub mode : String
  pub map_name : String

pub record BattleEntry : Type 0 where
  pub battle_time : Text
  pub event : BattleEvent
  pub battle : BattleData

pub record BattleLogResponse : Type 0 where
  pub items : List BattleEntry

pub record BrawlerItem : Type 0 where
  pub id : ℕ
  pub name : String
  pub star_powers : List StarPower
  pub gadgets : List Gadget

pub record BrawlerListResponse : Type 0 where
  pub items : List BrawlerItem
