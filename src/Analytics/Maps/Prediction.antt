-- ===== src/Analytics/Maps/Prediction.antt =====
-- analytics/maps.go: QualifyingBrawlers against the number of brawlers that BrawlerWinRates lists.
use brawl_stars_guide.Base.{
  ◌≡◌, ◌≢◌, refl, sym, ap, ◌∙◌, subst, true, String, str_eq_iff, List, [], ◌∷◌, map, arith, All,
  All-weaken_rows, All-both, keep_where, keep_where-All_kept, keep_where-map, keep_where_comm,
  map-All, length, length-map, length-order_by, flat_map, flat_map-eq-map, map-map_self, Group,
  group_by, group_by-map, group_by-agree, group_by-All, map_group, All-order_by, leb, ltb, ok,
}
use brawl_stars_guide.Storage.Schema.{Db}
use brawl_stars_guide.Storage.Statement.{Env, World, exec}
use brawl_stars_guide.Analytics.Filters.{Slot, base_joins, default_type}
use brawl_stars_guide.Analytics.WinRates.{
  Float, Pick, Aggregate, base_where, eligible, picks_of, same_brawler, aggregate, aggregates,
  ranks_before, battles_in,
}
use brawl_stars_guide.Analytics.WinRates.Attribution.{Attributed}
use brawl_stars_guide.Analytics.WinRates.Totals.{answer}
use brawl_stars_guide.Analytics.Maps.{
  MapEntry, MapListParams, same_brawler_map, brawler_map, qualifying, Side, side_where, same_map,
  map_entry, map_entries, map_list,
}
use brawl_stars_guide.Analytics.Maps.Qualifying.{
  rates_on, on_map, the_pick, Picked, eligible-Picked, keys_agree, map-groups, same_where,
}

eligible-on_map :
    (p : MapListParams) (d : Db) (m : String)
    → m ≢ ""
    → All (λ s. on_map m s ≡ true) (eligible (rates_on p m) d)
unfolding eligible
eligible-on_map p d m named =
    All-weaken_rows _ _ (keep_where (base_where (rates_on p m)) (base_joins d))
      (λ s h. ground (arith, same_where p m s named))
      (keep_where-All_kept (base_where (rates_on p m)) (base_joins d))

-- The groups of the win rates, from those of the first CTE.
rate-groups :
    (p : MapListParams) (d : Db) (m : String)
    → m ≢ ""
    → Attributed d
    → group_by same_brawler (flat_map (picks_of d) (eligible (rates_on p m) d))
      ≡ map (map_group (the_pick d)) (group_by same_brawler_map (eligible (rates_on p m) d))
rate-groups p d m named a =
    let rows = eligible (rates_on p m) d in
    let picked = eligible-Picked (rates_on p m) d a in
    ap (group_by same_brawler) (
      flat_map-eq-map (picks_of d) (the_pick d) rows (All-weaken_rows _ _ rows (λ s h. h.1) picked))
    ∙ group_by-map same_brawler (the_pick d) rows
    ∙ ap (map (map_group (the_pick d))) (
        sym (
          group_by-agree (λ s. Picked d s × (on_map m s ≡ true)) same_brawler_map
            (λ x y. same_brawler (the_pick d x) (the_pick d y)) rows (keys_agree d m)
            (All-both _ _ rows picked (eligible-on_map p d m named))))

-- The bound on battles sees the same battles in a group and in its picks.
bound-agree :
    (d : Db) (gs : List (Group Slot))
    → keep_where (λ g. leb 10 (aggregate (map_group (the_pick d) g)).battles) gs
      ≡ keep_where (λ g. leb 10 (battles_in g.rows)) gs
unfolding keep_where aggregate
bound-agree d [] = refl
bound-agree d (g ∷ gs) = ground (
  arith,
  ap battles_in (map-map_self (the_pick d) (λ (k : Pick). k.slot) g.rows (λ s. refl)),
  bound-agree d gs,
)

-- The qualifying brawlers of a map are those that the win rates on it list.
qualifying-eq :
    (p : MapListParams) (d : Db) (m : String)
    → m ≢ ""
    → Attributed d
    → qualifying p d m ≡ length (aggregates (rates_on p m) 10 d)
unfolding qualifying aggregates
qualifying-eq p d m named a =
    let rows = eligible (rates_on p m) d in
    let groups = group_by same_brawler_map rows in
    let kept = keep_where (λ (b : Aggregate). leb 10 b.battles) in
    ap length (
      keep_where_comm (λ (g : Group Slot). on_map m g.first) (λ g. leb 10 (battles_in g.rows))
        (brawler_map p d))
    ∙ ap (λ gs. length (keep_where (λ (g : Group Slot). leb 10 (battles_in g.rows)) gs))
        (map-groups p d m named)
    ∙ sym (ap length (bound-agree d groups))
    ∙ sym (
        length-map (map_group (the_pick d))
          (keep_where (λ g. leb 10 (aggregate (map_group (the_pick d) g)).battles) groups))
    ∙ sym (
        ap length (
          keep_where-map (λ (g : Group Pick). leb 10 (aggregate g).battles) (map_group (the_pick d))
            groups))
    ∙ sym (
        ap (λ gs. length (keep_where (λ (g : Group Pick). leb 10 (aggregate g).battles) gs))
          (rate-groups p d m named a))
    ∙ sym (
        length-map aggregate (
          keep_where (λ g. leb 10 (aggregate g).battles)
            (group_by same_brawler (flat_map (picks_of d) rows))))
    ∙ sym (
        ap length (
          keep_where-map (λ (b : Aggregate). leb 10 b.battles) aggregate
            (group_by same_brawler (flat_map (picks_of d) rows))))
    ∙ sym (
        length-order_by ranks_before
          (kept (map aggregate (group_by same_brawler (flat_map (picks_of d) rows)))))

-- The entries of the maps that have a name, which all have.
entries-All :
    (P : MapEntry → Type 0) (p : MapListParams) (d : Db)
    → ((g : Group Side) → g.first.battle.event_map ≢ "" → P (map_entry p d g))
    → All P (map_entries p d)
unfolding map_entries side_where
entries-All P p d h =
    All-order_by P (λ a b. ltb b.battles a.battles) _
      (map-All _ P (map_entry p d) _ (λ g k. h g k.0)
        (group_by-All (λ s. s.battle.event_map ≢ "") same_map _
          (All-weaken_rows _ _ (keep_where (side_where p) _)
            (λ s k. ground (arith, str_eq_iff s.battle.event_map ""))
            (keep_where-All_kept (side_where p) _))))

-- The list of maps predicts the win rates: each entry's QualifyingBrawlers is the number of brawlers
-- that BrawlerWinRates, asked for that map with the default bound of ten battles and no bucket, lists
-- from the same database, where brawlers have unique ids and participants only known brawlers.
pub maps_predict_rates :
    (f : Float) (e : Env) (q : MapListParams) (w : World) (entries : List MapEntry)
    → Attributed (e.others w.step w.db)
    → (map_list e q w).0 ≡ ok entries
    → All
        (λ m.
          m.qualifying_brawlers
          ≡ length (answer f (rates_on q m.map_name) (e.others w.step w.db)).brawlers)
        entries
unfolding map_list exec map_entry
maps_predict_rates f e q w entries a h =
    let d : Db = e.others w.step w.db in
    let p : MapListParams = record q { battle_type = default_type q.battle_type } in
    let same : entries ≡ map_entries p d = ground arith in
    subst (All _) (sym same) (
      entries-All _ p d (λ g named.
        qualifying-eq p d g.first.battle.event_map named a
        ∙ sym (length-map _ (aggregates (rates_on p g.first.battle.event_map) 10 d))))
