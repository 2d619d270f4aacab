-- ===== src/Analytics/WinRates/Totals.antt =====
-- analytics/winrate.go: TotalSlots against the slots of the brawlers.
use brawl_stars_guide.Base.{
  ℕ, ◌+◌, ◌≤◌, ◌≡◌, refl, ap, ◌∙◌, true, false, str_eq, str_eq_iff, List, [], ◌∷◌, map, arith, All,
  All-weaken_rows, count_where, keep_where, keep_where_of_All, length, flat_map, flat_map-All,
  map-All, length-flat_map, Group, group_by, sum_of, sum-map, sum-group_by, sum-order_by,
  sum_of-All, group_by-All, All-unit, group_by_filled, suc, leb, ok, if◌then◌else◌,
  count_distinct_pos,
}
use brawl_stars_guide.Storage.Schema.{Db, BattleTeam}
use brawl_stars_guide.Storage.Statement.{Env, World, exec, handle}
use brawl_stars_guide.Analytics.Filters.{Slot, is_ineligible_mode, has_result, default_type}
use brawl_stars_guide.Analytics.WinRates.{
  Float, WinRateParams, WinRateResult, Pick, Aggregate, picks_of, eligible, same_brawler, aggregate,
  aggregates, ranks_before, result_is, scan_row, brawler_win_rates, count_eligible, list_brawlers,
  min_battles_of, battles_in,
}
use brawl_stars_guide.Analytics.WinRates.Attribution.{Attributed, eligible-one, eligible-result}

-- The slots that the code computes for a row of the second query.
abbrev pub slots_of : Aggregate → ℕ
slots_of a = a.wins + a.losses + a.draws

has_one_result :
    (t : BattleTeam)
    → has_result t ≡ true
    → (if str_eq t.result "victory" then 1 else 0)
        + (if str_eq t.result "defeat" then 1 else 0)
        + (if str_eq t.result "draw" then 1 else 0)
      ≡ 1
unfolding has_result
has_one_result t h = ground (
  arith,
  str_eq_iff t.result "victory",
  str_eq_iff t.result "defeat",
  str_eq_iff t.result "draw",
  str_eq_iff "victory" "defeat",
  str_eq_iff "victory" "draw",
  str_eq_iff "defeat" "draw",
)

results_counted :
    (ks : List Pick)
    → All (λ k. has_result k.slot.team ≡ true) ks
    → count_where (result_is "victory") ks
        + count_where (result_is "defeat") ks
        + count_where (result_is "draw") ks
      ≡ length ks
unfolding count_where
results_counted [] h = refl
results_counted (k ∷ ks) h = omega (arith, results_counted ks h.1, has_one_result k.slot.team h.0)

pub picks-result :
    (p : WinRateParams) (d : Db)
    → All (λ k. has_result k.slot.team ≡ true) (flat_map (picks_of d) (eligible p d))
unfolding picks_of
picks-result p d =
    flat_map-All (λ s. has_result s.team ≡ true) _ (picks_of d) (eligible p d)
      (λ s h. map-All (λ b. Unit {0}) _ _ _ (λ b u. h) (All-unit _)) (eligible-result p d)

-- The slots of a group are its rows.
pub group-slots :
    (p : WinRateParams) (d : Db)
    → All
        (λ g. slots_of (aggregate g) ≡ length g.rows)
        (group_by same_brawler (flat_map (picks_of d) (eligible p d)))
unfolding aggregate
group-slots p d =
    All-weaken_rows _ _ (group_by same_brawler (flat_map (picks_of d) (eligible p d)))
      (λ g h. results_counted g.rows h.1)
      (group_by-All (λ k. has_result k.slot.team ≡ true) same_brawler _ (picks-result p d))

all-slots :
    (p : WinRateParams) (d : Db)
    → Attributed d
    → sum_of slots_of (map aggregate (group_by same_brawler (flat_map (picks_of d) (eligible p d))))
      ≡ length (eligible p d)
all-slots p d a =
    let groups = group_by same_brawler (flat_map (picks_of d) (eligible p d)) in
    sum-map slots_of aggregate groups
    ∙ sum_of-All (λ g. slots_of (aggregate g)) (λ g. length g.rows) groups (group-slots p d)
    ∙ sum-group_by same_brawler (flat_map (picks_of d) (eligible p d))
    ∙ length-flat_map (picks_of d) (eligible p d) (eligible-one p d a)

battles_pos : (g : Group Pick) → 1 ≤ length g.rows → leb 1 (aggregate g).battles ≡ true
unfolding aggregate
battles_pos g h = go g.rows h
  where
    go : (ks : List Pick) → 1 ≤ length ks → leb 1 (battles_in (map (λ k. k.slot) ks)) ≡ true
    go [] k = absurd (omega arith)
    go (x ∷ xs) k = ground (
      arith,
      count_distinct_pos x.slot.battle.id
          (map (λ (s : Slot). s.battle.id) (map (λ (k : Pick). k.slot) xs)),
    )

-- With the smallest bound HAVING leaves every brawler.
pub aggregates-eq :
    (p : WinRateParams) (d : Db)
    → Attributed d
    → sum_of slots_of (aggregates p 1 d) ≡ length (eligible p d)
unfolding aggregates
aggregates-eq p d a =
    let groups = group_by same_brawler (flat_map (picks_of d) (eligible p d)) in
    let kept : keep_where (λ b. leb 1 b.battles) (map aggregate groups) ≡ map aggregate groups =
      keep_where_of_All (λ b. leb 1 b.battles) (map aggregate groups)
        (map-All (λ g. 1 ≤ length g.rows) _ aggregate groups battles_pos
          (group_by_filled same_brawler (flat_map (picks_of d) (eligible p d)))) in
    sum-order_by slots_of ranks_before (keep_where (λ b. leb 1 b.battles) (map aggregate groups))
    ∙ ap (sum_of slots_of) kept
    ∙ all-slots p d a

-- The parameters after the default of the battle type.
abbrev pub effective : WinRateParams → WinRateParams
effective q = record q { battle_type = default_type q.battle_type }

-- What BrawlerWinRates returns if both queries see the database `d`.
abbrev pub answer : Float → WinRateParams → Db → WinRateResult
answer f q d = record {
  sample_battles = battles_in (eligible (effective q) d);
  total_slots = length (eligible (effective q) d);
  brawlers =
      map (scan_row f (length (eligible (effective q) d)))
        (aggregates (effective q) (min_battles_of q) d);
}

-- Both queries of BrawlerWinRates see what others left before the first one.
abbrev pub Quiet : Env → World → Type 0
Quiet e w =
    (e.fails w.step ≡ false)
    × (e.fails (suc w.step) ≡ false)
    × (e.others (suc w.step) (e.others w.step w.db) ≡ e.others w.step w.db)

win_rates-answer :
    (f : Float) (e : Env) (q : WinRateParams) (w : World)
    → is_ineligible_mode q.mode ≡ false
    → Quiet e w
    → (brawler_win_rates f e q w).0 ≡ ok (answer f q (e.others w.step w.db))
unfolding brawler_win_rates count_eligible list_brawlers exec handle
win_rates-answer f e q w m h = rw (m, brawler_win_rates) (rw (h.0) (rw (h.1) (rw (h.2) refl)))

scanned-slots :
    (f : Float) (total : ℕ) (rows : List Aggregate)
    → sum_of (λ b. b.slots) (map (scan_row f total) rows) ≡ sum_of slots_of rows
unfolding scan_row
scanned-slots f total rows = sum-map (λ b. b.slots) (scan_row f total) rows

-- With the least bound on battles, the slots of the brawlers add up to TotalSlots, so that their pick
-- rates share out the whole: BrawlerWinRates returns such a result if its mode is eligible, its queries
-- do not fail and see one database, and there brawlers have unique ids and participants only known brawlers.
pub slots-add_up :
    (f : Float) (e : Env) (q : WinRateParams) (w : World)
    → is_ineligible_mode q.mode ≡ false
    → Quiet e w
    → Attributed (e.others w.step w.db)
    → min_battles_of q ≡ 1
    → (r : WinRateResult) × ((brawler_win_rates f e q w).0 ≡ ok r)
      × (sum_of (λ b. b.slots) r.brawlers ≡ r.total_slots)
slots-add_up f e q w m h a one =
    let d : Db = e.others w.step w.db in
    (
      answer f q d,
      win_rates-answer f e q w m h,
      scanned-slots f _ (aggregates (effective q) (min_battles_of q) d)
          ∙ ap (λ n. sum_of slots_of (aggregates (effective q) n d)) one
          ∙ aggregates-eq (effective q) d a,
    )
