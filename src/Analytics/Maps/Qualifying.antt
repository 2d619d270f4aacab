-- ===== src/Analytics/Maps/Qualifying.antt =====
-- analytics/maps.go and winrate.go: the qualifying brawlers of a map and the win rates on it.
use brawl_stars_guide.Base.{
  ℕ, ◌≡◌, ◌≢◌, refl, ap, ◌∙◌, subst, Bool, true, false, ◌&&◌, String, str_eq, str_eq_iff, Option,
  none, some, List, [], ◌∷◌, map, arith, All, All-weaken_rows, keep_where, keep_where-All_kept,
  keep_where-both, length, group_by, group_by-keep, ◌==◌, pos,
}
use brawl_stars_guide.Storage.Schema.{Db, Brawler}
use brawl_stars_guide.Analytics.Filters.{Slot, base_joins, has_brawler}
use brawl_stars_guide.Analytics.WinRates.{
  WinRateParams, Pick, base_where, eligible, picks_of, same_brawler,
}
use brawl_stars_guide.Analytics.WinRates.Attribution.{Attributed, eligible-known}
use brawl_stars_guide.Analytics.Maps.{
  MapListParams, map_where, same_brawler_map, brawler_map, same_id,
}

-- The default query of the win rates on a map.
abbrev pub rates_on : MapListParams → String → WinRateParams
rates_on p m = record {
  mode = p.mode;
  map_name = some m;
  battle_type = p.battle_type;
  brawler_trophy_bucket = none;
  min_battles = pos 10;
}

abbrev pub on_map : String → Slot → Bool
on_map m s = str_eq s.battle.event_map m

pub same_where :
    (p : MapListParams) (m : String) (s : Slot)
    → m ≢ ""
    → base_where (rates_on p m) s ≡ (map_where p s && on_map m s)
unfolding base_where map_where
same_where p m s named =
    ground
      (arith, str_eq_iff s.battle.event_map m, str_eq_iff s.battle.event_map "", str_eq_iff m "")

on_map-respect : (m : String) (a b : Slot) → same_brawler_map a b ≡ true → on_map m a ≡ on_map m b
on_map-respect m a b h = ground (arith, str_eq_iff a.battle.event_map b.battle.event_map)

-- The groups of the first CTE on one map.
pub map-groups :
    (p : MapListParams) (d : Db) (m : String)
    → m ≢ ""
    → keep_where (λ g. on_map m g.first) (brawler_map p d)
      ≡ group_by same_brawler_map (eligible (rates_on p m) d)
unfolding brawler_map eligible
map-groups p d m named =
    group_by-keep (on_map m) same_brawler_map (keep_where (map_where p) (base_joins d))
      (on_map-respect m)
    ∙ ap (group_by same_brawler_map) (
        keep_where-both (on_map m) (map_where p) (base_where (rates_on p m)) (base_joins d)
          (λ s. same_where p m s named))

-- A brawler for no number of the reference table.
abbrev pub nobody : Brawler
nobody = record {
  id = 0;
  name = "";
  rarity = none;
  class = none;
  is_active = false;
  updated_at = 0;
}

abbrev pub first_of : List Brawler → Brawler
first_of [] = nobody
first_of (b ∷ bs) = b

abbrev pub brawler_at : Db → ℕ → Brawler
brawler_at d n = first_of (keep_where (λ b. b.id == n) d.brawlers)

abbrev pub number : Slot → ℕ
number s = elim s.participant.brawler_id [ none ↦ 0 | some n ↦ n ]

abbrev pub the_pick : Db → Slot → Pick
the_pick d s = record { brawler = brawler_at d (number s); slot = s }

-- A slot that joins with one brawler.
abbrev pub Picked : Db → Slot → Type 0
Picked d s =
    (has_brawler s.participant ≡ true)
    × (picks_of d s ≡ the_pick d s ∷ [])
    × ((brawler_at d (number s)).id ≡ number s)

single :
    (bs : List Brawler) (p : Brawler → Bool) (s : Slot)
    → length bs ≡ 1
    → All (λ b. p b ≡ true) bs
    → (map {B = Pick} (λ b. record { brawler = b; slot = s }) bs
        ≡ record { brawler = first_of bs; slot = s } ∷ [])
      × (p (first_of bs) ≡ true)
single [] p s h k = absurd (omega arith)
single (b ∷ []) p s h k = (refl, k.0)
single (b ∷ (c ∷ bs)) p s h k = absurd (omega arith)

picked_at :
    (d : Db) (s : Slot) (o : Option ℕ)
    → elim o [ none ↦ false | some id ↦ true ] ≡ true
    → length
        (keep_where (λ (b : Brawler). elim o [ none ↦ false | some id ↦ b.id == id ]) d.brawlers)
      ≡ 1
    → (map {B = Pick}
          (λ b. record { brawler = b; slot = s })
          (keep_where (λ (b : Brawler). elim o [ none ↦ false | some id ↦ b.id == id ]) d.brawlers)
        ≡ record { brawler = brawler_at d (elim o [ none ↦ 0 | some n ↦ n ]); slot = s } ∷ [])
      × ((brawler_at d (elim o [ none ↦ 0 | some n ↦ n ])).id ≡ elim o [ none ↦ 0 | some n ↦ n ])
picked_at d s none h k = cc
picked_at d s (some n) h k =
    let (row, hit) =
      single (keep_where (λ b. b.id == n) d.brawlers) (λ b. b.id == n) s k
        (keep_where-All_kept (λ b. b.id == n) d.brawlers) in
    (row, ground arith)

pub eligible-Picked : (p : WinRateParams) (d : Db) → Attributed d → All (Picked d) (eligible p d)
unfolding picks_of
eligible-Picked p d a =
    All-weaken_rows _ _ (eligible p d)
      (λ s h. let (row, id) = picked_at d s s.participant.brawler_id h.0 h.1 in (h.0, row, id))
      (eligible-known p d a)

same_ids :
    (d : Db) (m n : ℕ) → (m == n) ≡ true → str_eq (brawler_at d m).name (brawler_at d n).name ≡ true
same_ids d m n h =
    let e : m ≡ n = ground arith in
    subst (λ k. str_eq (brawler_at d m).name (brawler_at d k).name ≡ true) e
      ((str_eq_iff (brawler_at d m).name (brawler_at d m).name).1 refl)

numbers_agree :
    (o o' : Option ℕ)
    → elim o [ none ↦ false | some id ↦ true ] ≡ true
    → elim o' [ none ↦ false | some id ↦ true ] ≡ true
    → same_id o o' ≡ (elim o [ none ↦ 0 | some n ↦ n ] == elim o' [ none ↦ 0 | some n ↦ n ])
numbers_agree none o' h k = cc
numbers_agree (some m) none h k = cc
numbers_agree (some m) (some n) h k = refl

-- On one map the key of the first CTE and that of the win rates agree.
pub keys_agree :
    (d : Db) (m : String) (a b : Slot)
    → Picked d a × (on_map m a ≡ true)
    → Picked d b × (on_map m b ≡ true)
    → same_brawler_map a b ≡ same_brawler (the_pick d a) (the_pick d b)
keys_agree d m a b h k = ground (
  arith,
  numbers_agree a.participant.brawler_id b.participant.brawler_id h.0.0 k.0.0,
  same_ids d (number a) (number b),
  str_eq_iff a.battle.event_map b.battle.event_map,
  str_eq_iff a.battle.event_map m,
  str_eq_iff b.battle.event_map m,
)
