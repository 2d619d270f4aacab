-- ===== src/Analytics/Filters.antt =====
-- analytics/winrate.go: the modes, the battle types, and the rows that both queries start from.
use brawl_stars_guide.Base.{
  Bool, true, false, ◌||◌, String, str_eq, none, some, List, map, ◌==◌, if◌then◌else◌, keep_where,
  flat_map,
}
use brawl_stars_guide.Storage.Schema.{Db, Battle, BattleTeam, Participant}

-- The map `ineligibleModes`, false for what it does not hold.
unfoldable pub is_ineligible_mode : String → Bool
is_ineligible_mode mode =
    str_eq mode "soloShowdown"
    || str_eq mode "duoShowdown"
    || str_eq mode "trioShowdown"
    || str_eq mode "tagTeam"

unfoldable pub valid_battle_type : String → Bool
valid_battle_type bt =
    str_eq bt "ranked" || str_eq bt "soloRanked" || str_eq bt "competitive" || str_eq bt "any"

-- `if p.BattleType == "" { p.BattleType = BattleTypeRanked }`
abbrev pub default_type : String → String
default_type bt = if str_eq bt "" then "ranked" else bt

-- The rows that the WHERE fragment battleTypeSQL(bt) keeps; its default is the empty fragment.
unfoldable pub battle_type_sql : String → Battle → Bool
battle_type_sql bt b =
    if str_eq bt "ranked"
    then str_eq b.battle_type "ranked"
    else if str_eq bt "soloRanked"
    then str_eq b.battle_type "soloRanked"
    else if str_eq bt "competitive"
    then str_eq b.battle_type "ranked" || str_eq b.battle_type "soloRanked"
    else true

-- bt.result IN ('victory', 'defeat', 'draw')
unfoldable pub has_result : BattleTeam → Bool
has_result t = str_eq t.result "victory" || str_eq t.result "defeat" || str_eq t.result "draw"

-- A row of battle_participants JOIN battle_teams JOIN battles.
pub record Slot : Type 0 where
  pub participant : Participant
  pub team : BattleTeam
  pub battle : Battle

-- ON bt.id = bp.team_id, which no NULL satisfies.
abbrev pub team_of : Participant → BattleTeam → Bool
team_of p t = elim p.team_id [ none ↦ false | some id ↦ t.id == id ]

-- ON b.id = bp.battle_id
abbrev pub battle_of : Participant → Battle → Bool
battle_of p b = b.id == p.battle_id

unfoldable pub base_joins : Db → List Slot
base_joins d =
    flat_map
      (λ p.
        flat_map
          (λ t.
            map (λ b. record { participant = p; team = t; battle = b })
              (keep_where (battle_of p) d.battles))
          (keep_where (team_of p) d.teams))
      d.participants

-- bp.brawler_id IS NOT NULL
abbrev pub has_brawler : Participant → Bool
has_brawler p = elim p.brawler_id [ none ↦ false | some id ↦ true ]
