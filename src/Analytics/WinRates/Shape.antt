-- ===== src/Analytics/WinRates/Shape.antt =====
-- analytics/winrate.go: the rows of a result.
use brawl_stars_guide.Base.{
  ℕ, ◌+◌, ◌*◌, ◌≤◌, ◌<◌, ◌⊎◌, some, ◌≡◌, refl, sym, subst, true, false, none, List, [], ◌∷◌, map,
  arith, All, All-weaken_rows, All-both, keep_where, keep_where-All, keep_where-All_kept, map-All,
  length-map, flat_map, group_by, All-order_by, InOrder, order_by-InOrder, ◌↔◌,
  count_distinct-le-length, leb, ok, suc,
}
use brawl_stars_guide.Storage.Schema.{Db}
use brawl_stars_guide.Storage.Statement.{Env, World, exec, handle}
use brawl_stars_guide.Analytics.Filters.{Slot}
use brawl_stars_guide.Analytics.WinRates.{
  Float, BrawlerWinRate, WinRateParams, WinRateResult, Pick, Aggregate, picks_of, eligible,
  same_brawler, aggregate, aggregates, ranks_before, scan_row, rounded, brawler_win_rates,
  count_eligible, list_brawlers, min_battles_of,
}
use brawl_stars_guide.Analytics.WinRates.Totals.{slots_of, effective, group-slots}

ranks_before_asym : (a b : Aggregate) → ranks_before a b ≡ true → ranks_before b a ≡ false
unfolding ranks_before
ranks_before_asym a b h = ground arith

aggregate-battles-le :
    (p : WinRateParams) (d : Db)
    → All
        (λ g. (aggregate g).battles ≤ slots_of (aggregate g))
        (group_by same_brawler (flat_map (picks_of d) (eligible p d)))
unfolding aggregate
aggregate-battles-le p d =
    All-weaken_rows _ _ (group_by same_brawler (flat_map (picks_of d) (eligible p d)))
      (λ g h. omega (
        arith,
        h,
        count_distinct-le-length
            (map (λ (s : Slot). s.battle.id) (map (λ (k : Pick). k.slot) g.rows)),
        length-map (λ (s : Slot). s.battle.id) (map (λ (k : Pick). k.slot) g.rows),
        length-map (λ (k : Pick). k.slot) g.rows,
      ))
      (group-slots p d)

-- A row that HAVING keeps.
abbrev Listed : ℕ → Aggregate → Type 0
Listed min a = (min ≤ a.battles) × (a.battles ≤ slots_of a)

aggregates-Listed : (p : WinRateParams) (min : ℕ) (d : Db) → All (Listed min) (aggregates p min d)
unfolding aggregates
aggregates-Listed p min d =
    let rows = map aggregate (group_by same_brawler (flat_map (picks_of d) (eligible p d))) in
    All-order_by (Listed min) ranks_before (keep_where (λ a. leb min a.battles) rows) (
      All-weaken_rows _ _ (keep_where (λ a. leb min a.battles) rows) (λ a h. (ground arith, h.1))
        (All-both _ _ _ (keep_where-All_kept (λ a. leb min a.battles) rows) (
          keep_where-All _ (λ a. leb min a.battles) rows
            (map-All _ _ aggregate _ (λ g h. h) (aggregate-battles-le p d)))))

-- A part of a whole as the code rounds it, to the digits of `scale`.
abbrev pub share : Float → ℕ → ℕ → ℕ → ℕ
share f scale part whole =
    let exact = f.div (f.of_int part) (f.of_int whole) in
    f.div (f.round (f.mul exact (f.of_int scale))) (f.of_int scale)

-- A row as it is to be: the bound on battles holds, the slots are the three results and at least the
-- battles, and each rate is missing exactly if its denominator is 0, else it is the rounded share, of
-- the wins in the wins and losses and of the slots in all slots.
pub record IsSound (f : Float) (min total : ℕ) (b : BrawlerWinRate) : Type 0 where
  pub enough : min ≤ b.battles
  pub once : b.battles ≤ b.slots
  pub slots : b.slots ≡ b.wins + b.losses + b.draws
  pub no_rate : (b.win_pct ≡ none) ↔ (b.wins + b.losses ≡ 0)
  pub rate : 0 < b.wins + b.losses → b.win_pct ≡ some (share f 1000 b.wins (b.wins + b.losses))
  pub no_pick : (b.pick_rate ≡ none) ↔ (total ≡ 0)
  pub pick : 0 < total → b.pick_rate ≡ some (share f 10000 b.slots total)

scan_row-IsSound :
    (f : Float) (min total : ℕ) (a : Aggregate)
    → Listed min a
    → IsSound f min total (scan_row f total a)
unfolding scan_row rounded
scan_row-IsSound f min total a h = record {
  enough = h.0;
  once = h.1;
  slots = refl;
  no_rate = ground arith;
  rate = λ some_decided. ground arith;
  no_pick = ground arith;
  pick = λ some_slot. ground arith;
}

-- The battles of a row that were won or lost.
abbrev pub decided : BrawlerWinRate → ℕ
decided b = b.wins + b.losses

-- `a` may stand before `b`: it has the greater share of wins, or `b` has no decided battle and `a` has
-- one, or their shares are equal or both missing and `a` has at least the battles of `b`.
abbrev pub Ahead : BrawlerWinRate → BrawlerWinRate → Type 0
Ahead a b =
    ((0 < decided a) × (0 < decided b) × (b.wins * decided a < a.wins * decided b))
    ⊎ ((0 < decided a) × (decided b ≡ 0))
    ⊎ ((0 < decided a)
        × (0 < decided b)
        × (a.wins * decided b ≡ b.wins * decided a)
        × (b.battles ≤ a.battles))
    ⊎ ((decided a ≡ 0) × (decided b ≡ 0) × (b.battles ≤ a.battles))

-- Each row may stand before the next.
abbrev pub Ranked : List BrawlerWinRate → Type 0
Ranked [] = Unit
Ranked (a ∷ []) = Unit
Ranked (a ∷ (b ∷ rows)) = Ahead a b × Ranked (b ∷ rows)

ranks_before-Ahead :
    (f : Float) (total : ℕ) (a b : Aggregate)
    → ranks_before b a ≡ false
    → Ahead (scan_row f total a) (scan_row f total b)
unfolding ranks_before scan_row
ranks_before-Ahead f total a b h = ground arith

scanned-Ranked :
    (f : Float) (total : ℕ) (rows : List Aggregate)
    → InOrder ranks_before rows
    → Ranked (map (scan_row f total) rows)
scanned-Ranked f total [] h = tt
scanned-Ranked f total (a ∷ []) h = tt
scanned-Ranked f total (a ∷ (b ∷ rows)) h =
    (ranks_before-Ahead f total a b h.0, scanned-Ranked f total (b ∷ rows) h.1)

result-rows :
    (f : Float) (e : Env) (q : WinRateParams) (w : World) (r : WinRateResult)
    → (brawler_win_rates f e q w).0 ≡ ok r
    → r.brawlers
      ≡ map (scan_row f r.total_slots) (
          aggregates
            (effective q)
            (min_battles_of q)
            (e.others (suc w.step) (e.others w.step w.db)))
unfolding brawler_win_rates count_eligible list_brawlers exec handle
result-rows f e q w r h = ground arith

-- Every result of BrawlerWinRates, whatever others do between its queries, lists its brawlers from the
-- greatest share of wins to the least, those with neither a win nor a loss last and those of one share
-- from the most battles to the fewest, each with at least the least number of battles, with as many
-- slots as wins, losses and draws, and with the rounded shares as its rates, which are missing exactly
-- where nothing can be divided by.
pub win_rates-IsSound :
    (f : Float) (e : Env) (q : WinRateParams) (w : World) (r : WinRateResult)
    → (brawler_win_rates f e q w).0 ≡ ok r
    → All (IsSound f (min_battles_of q) r.total_slots) r.brawlers × Ranked r.brawlers
unfolding aggregates
win_rates-IsSound f e q w r h =
    let d : Db = e.others (suc w.step) (e.others w.step w.db) in
    let rows = aggregates (effective q) (min_battles_of q) d in
    subst (λ bs. All (IsSound f (min_battles_of q) r.total_slots) bs × Ranked bs)
      (sym (result-rows f e q w r h))
      (
        map-All (Listed (min_battles_of q)) _ (scan_row f r.total_slots) rows
            (scan_row-IsSound f (min_battles_of q) r.total_slots)
            (aggregates-Listed (effective q) (min_battles_of q) d),
        scanned-Ranked f r.total_slots rows (order_by-InOrder ranks_before _ ranks_before_asym),
      )
