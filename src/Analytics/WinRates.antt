-- ===== src/Analytics/WinRates.antt =====
-- analytics/winrate.go: BrawlerWinRates. Its two queries are two steps, each with its own view of the
-- database. A float64 is kept as its bit pattern.
pub mod Attribution
pub mod Totals
pub mod Shape
use brawl_stars_guide.Base.{
  ℕ, ◌+◌, ◌*◌, Bool, true, false, ◌&&◌, String, str_eq, Option, none, some, List, [], ◌∷◌, map,
  ◌==◌, ltb, leb, leb_ℤ, if◌then◌else◌, keep_where, count_where, length, flat_map, Group, group_by,
  order_by, count_distinct, Error, other, Result, ok, err, ℤ, pos, pos_part, ltb_ℤ,
}
use brawl_stars_guide.Storage.Schema.{Db, Battle, BattleTeam, Participant, Brawler}
use brawl_stars_guide.Storage.Statement.{Env, M, exec, handle, pure, return, ◌>>=◌}
use brawl_stars_guide.Storage.Brawlers.{brawler_is}
use brawl_stars_guide.Analytics.Filters.{
  Slot, is_ineligible_mode, default_type, battle_type_sql, has_result, has_brawler, base_joins,
}

-- The operations of float64 that the code calls, on bit patterns.
pub record Float : Type 0 where
  pub of_int : ℕ → ℕ  -- float64(n)
  pub div : ℕ → ℕ → ℕ
  pub mul : ℕ → ℕ → ℕ
  pub round : ℕ → ℕ  -- math.Round

pub record BrawlerWinRate : Type 0 where
  pub brawler_id : ℕ
  pub name : String
  pub battles : ℕ
  pub slots : ℕ
  pub wins : ℕ
  pub losses : ℕ
  pub draws : ℕ
  pub win_pct : Option ℕ
  pub pick_rate : Option ℕ

pub record WinRateParams : Type 0 where
  pub mode : String
  pub map_name : Option String
  pub battle_type : String
  pub brawler_trophy_bucket : Option ℕ
  pub min_battles : ℤ

pub record WinRateResult : Type 0 where
  pub sample_battles : ℕ
  pub total_slots : ℕ
  pub brawlers : List BrawlerWinRate

-- AND bp.trophy_bucket = $n, if there is a bucket.
abbrev pub bucket_clause : Option ℕ → Participant → Bool
bucket_clause none p = true
bucket_clause (some b) p = elim p.trophy_bucket [ none ↦ false | some c ↦ c == b ]

-- AND b.event_map = $n, if there is a map.
abbrev pub map_clause : Option String → Battle → Bool
map_clause none b = true
map_clause (some m) b = str_eq b.event_map m

unfoldable pub base_where : WinRateParams → Slot → Bool
base_where p s =
    str_eq s.battle.event_mode p.mode
    && has_brawler s.participant
    && has_result s.team
    && battle_type_sql p.battle_type s.battle
    && bucket_clause p.brawler_trophy_bucket s.participant
    && map_clause p.map_name s.battle

-- The eligible rows.
unfoldable pub eligible : WinRateParams → Db → List Slot
eligible p d = keep_where (base_where p) (base_joins d)

abbrev pub battles_in : List Slot → ℕ
battles_in rows = count_distinct (map (λ s. s.battle.id) rows)

-- SELECT COUNT(DISTINCT b.id), COUNT(*)
unfoldable pub count_eligible : Env → WinRateParams → M (ℕ × ℕ)
count_eligible e p = exec e λ now d. (ok (battles_in (eligible p d), length (eligible p d)), d)

-- A row of the joins with brawlers.
pub record Pick : Type 0 where
  pub brawler : Brawler
  pub slot : Slot

-- JOIN brawlers br ON br.id = bp.brawler_id
abbrev pub brawler_of : Participant → Brawler → Bool
brawler_of p b = elim p.brawler_id [ none ↦ false | some id ↦ b.id == id ]

unfoldable pub picks_of : Db → Slot → List Pick
picks_of d s =
    map (λ b. record { brawler = b; slot = s }) (keep_where (brawler_of s.participant) d.brawlers)

-- GROUP BY br.id, br.name
abbrev pub same_brawler : Pick → Pick → Bool
same_brawler a b = a.brawler.id == b.brawler.id && str_eq a.brawler.name b.brawler.name

abbrev pub result_is : String → Pick → Bool
result_is r k = str_eq k.slot.team.result r

-- The columns of a group, as the database returns them.
pub record Aggregate : Type 0 where
  pub id : ℕ
  pub name : String
  pub battles : ℕ
  pub wins : ℕ
  pub losses : ℕ
  pub draws : ℕ

unfoldable pub aggregate : Group Pick → Aggregate
aggregate g = record {
  id = g.first.brawler.id;
  name = g.first.brawler.name;
  battles = battles_in (map (λ k. k.slot) g.rows);
  wins = count_where (result_is "victory") g.rows;
  losses = count_where (result_is "defeat") g.rows;
  draws = count_where (result_is "draw") g.rows;
}

-- ORDER BY wins / NULLIF(wins + losses, 0) DESC NULLS LAST, battles DESC. The ratios are compared
-- crosswise, which the digits of NUMERIC decide alike for counts below 10^8.
unfoldable pub ranks_before : Aggregate → Aggregate → Bool
ranks_before a b =
    if (a.wins + a.losses) == 0
    then (if (b.wins + b.losses) == 0 then ltb b.battles a.battles else false)
    else if (b.wins + b.losses) == 0
    then true
    else (let mine = a.wins * (b.wins + b.losses) in
        let its = b.wins * (a.wins + a.losses) in
        if ltb its mine then true else if its == mine then ltb b.battles a.battles else false)

unfoldable pub aggregates : WinRateParams → ℕ → Db → List Aggregate
aggregates p min d = order_by ranks_before (
    keep_where (λ a. leb min a.battles)
      (map aggregate (group_by same_brawler (flat_map (picks_of d) (eligible p d)))))

-- math.Round(float64(part)/float64(whole)*scale) / scale
unfoldable pub rounded : Float → ℕ → ℕ → ℕ → ℕ
rounded f scale part whole =
    f.div (f.round (f.mul (f.div (f.of_int part) (f.of_int whole)) (f.of_int scale)))
      (f.of_int scale)

unfoldable pub scan_row : Float → ℕ → Aggregate → BrawlerWinRate
scan_row f total a =
    let slots = a.wins + a.losses + a.draws in
    record {
      brawler_id = a.id;
      name = a.name;
      battles = a.battles;
      slots = slots;
      wins = a.wins;
      losses = a.losses;
      draws = a.draws;
      win_pct =
          if ltb 0 (a.wins + a.losses)
          then some (rounded f 1000 a.wins (a.wins + a.losses))
          else none;
      pick_rate = if ltb 0 total then some (rounded f 10000 slots total) else none;
    }

-- minBattles, which is at least 1.
abbrev pub min_battles_of : WinRateParams → ℕ
min_battles_of p = if ltb_ℤ p.min_battles (pos 1) then 1 else pos_part p.min_battles

unfoldable pub list_brawlers : Env → WinRateParams → M (List Aggregate)
list_brawlers e p = exec e (λ now d. (ok (aggregates p (min_battles_of p) d), d))

unfoldable pub brawler_win_rates : Float → Env → WinRateParams → M WinRateResult
brawler_win_rates f e q =
    if is_ineligible_mode q.mode
    then pure (err other)
    else (let p = record q { battle_type = default_type q.battle_type } in
        count_eligible e p >>= λ counts. list_brawlers e p >>= λ rows. return (record {
          sample_battles = counts.0;
          total_slots = counts.1;
          brawlers = map (scan_row f (counts.1)) rows;
        }))
