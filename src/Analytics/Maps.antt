-- ===== src/Analytics/Maps.antt =====
-- analytics/maps.go: MapList.
pub mod Qualifying
pub mod Prediction
use brawl_stars_guide.Base.{
  ℕ, Bool, true, false, ◌&&◌, not, String, str_eq, Option, none, some, List, [], ◌∷◌, map, ◌==◌,
  ltb, leb, if◌then◌else◌, keep_where, length, flat_map, Group, group_by, order_by, Error, other,
  Result, ok, err, count_distinct,
}
use brawl_stars_guide.Storage.Schema.{Db, Battle, BattleTeam}
use brawl_stars_guide.Storage.Statement.{Env, M, exec, pure}
use brawl_stars_guide.Analytics.Filters.{
  Slot, is_ineligible_mode, default_type, battle_type_sql, has_result, has_brawler, base_joins,
}
use brawl_stars_guide.Analytics.WinRates.{battles_in}

pub record MapEntry : Type 0 where
  pub map_name : String
  pub battles : ℕ
  pub qualifying_brawlers : ℕ

pub record MapListParams : Type 0 where
  pub mode : String
  pub battle_type : String

abbrev pub on_named_map : Battle → Bool
on_named_map b = not (str_eq b.event_map "")

unfoldable pub map_where : MapListParams → Slot → Bool
map_where p s =
    str_eq s.battle.event_mode p.mode
    && on_named_map s.battle
    && has_brawler s.participant
    && has_result s.team
    && battle_type_sql p.battle_type s.battle

abbrev pub same_id : Option ℕ → Option ℕ → Bool
same_id none none = true
same_id none (some n) = false
same_id (some m) none = false
same_id (some m) (some n) = m == n

-- GROUP BY bp.brawler_id, b.event_map
abbrev pub same_brawler_map : Slot → Slot → Bool
same_brawler_map a b =
    same_id a.participant.brawler_id b.participant.brawler_id
    && str_eq a.battle.event_map b.battle.event_map

-- The first CTE.
unfoldable pub brawler_map : MapListParams → Db → List (Group Slot)
brawler_map p d = group_by same_brawler_map (keep_where (map_where p) (base_joins d))

-- The second CTE, with COALESCE(…, 0) for a map that it does not hold.
unfoldable pub qualifying : MapListParams → Db → String → ℕ
qualifying p d m = length (
    keep_where (λ g. str_eq g.first.battle.event_map m)
      (keep_where (λ g. leb 10 (battles_in g.rows)) (brawler_map p d)))

-- A row of battles b JOIN battle_teams bt ON bt.battle_id = b.id
pub record Side : Type 0 where
  pub battle : Battle
  pub team : BattleTeam

unfoldable pub sides : Db → List Side
sides d =
    flat_map
      (λ b.
        map (λ t. record { battle = b; team = t }) (keep_where (λ t. t.battle_id == b.id) d.teams))
      d.battles

unfoldable pub side_where : MapListParams → Side → Bool
side_where p s =
    str_eq s.battle.event_mode p.mode
    && on_named_map s.battle
    && has_result s.team
    && battle_type_sql p.battle_type s.battle

-- GROUP BY b.event_map, since the count is a function of the map.
abbrev pub same_map : Side → Side → Bool
same_map a b = str_eq a.battle.event_map b.battle.event_map

unfoldable pub map_entry : MapListParams → Db → Group Side → MapEntry
map_entry p d g = record {
  map_name = g.first.battle.event_map;
  battles = count_distinct (map (λ s. s.battle.id) g.rows);
  qualifying_brawlers = qualifying p d g.first.battle.event_map;
}

unfoldable pub map_entries : MapListParams → Db → List MapEntry
map_entries p d =
    order_by (λ a b. ltb b.battles a.battles)
      (map (map_entry p d) (group_by same_map (keep_where (side_where p) (sides d))))

unfoldable pub map_list : Env → MapListParams → M (List MapEntry)
map_list e q =
    if is_ineligible_mode q.mode
    then pure (err other)
    else (let p = record q { battle_type = default_type q.battle_type } in
        exec e (λ now d. (ok (map_entries p d), d)))
