-- ===== src/Collector/Loops.antt =====
-- collector/cmd/collector/main.go: the loops of runCollectPlayer and runSeedBrawlers.
use brawl_stars_guide.Base.{
  ℕ, suc, ◌+◌, ◌≡◌, refl, sym, subst, ap, ◌∙◌, Bool, true, ◌&&◌, some, List, [], ◌∷◌, ◌==◌, arith,
  any_where, any-append_true, any-append_hit, update_where, All, Result, ok, err, length,
}
use brawl_stars_guide.Apiclient.Types.{BattleEntry, BrawlerItem, BrawlerListResponse}
use brawl_stars_guide.Storage.Schema.{Db, Brawler}
use brawl_stars_guide.Storage.Statement.{Env, World, handle, branch}
use brawl_stars_guide.Storage.Statement.Keeps.{Keeps, after-ok, handle-keeps}
use brawl_stars_guide.Storage.Brawlers.{brawler_is, upsert_brawler}
use brawl_stars_guide.Ingestion.Runtime.{Runtime}
use brawl_stars_guide.Ingestion.Discovery.{BattleIngestor}
use brawl_stars_guide.Ingestion.Battle.{IngestResult, ingest_battle}
use brawl_stars_guide.Crawler.Worker.{call}
use brawl_stars_guide.Collector.Commands.{
  Api, Collected, count_result, collect_entries, seed_items, run_seed_brawlers,
}
use brawl_stars_guide.Collector.Repair.{Calm, Calm-exec}

abbrev entries_of : Collected → ℕ
entries_of c = c.new_battles + c.skipped + c.errored

count_result-one :
    (c : Collected) (r : IngestResult) → entries_of (count_result c r) ≡ suc (entries_of c)
count_result-one c r = ground arith

-- Whatever fails, the loop of runCollectPlayer comes to the end of the log, and each entry is counted
-- once: as new, as skipped, or as an error.
pub collect_entries_tally :
    (rt : Runtime) (e : Env) (b : BattleIngestor) (entries : List BattleEntry) (c : Collected)
    (w : World)
    → (r : Collected) × (((collect_entries rt e b entries c w).0 ≡ ok r)
        × (r.new_battles + r.skipped + r.errored
            ≡ c.new_battles + c.skipped + c.errored + length entries))
unfolding collect_entries handle
collect_entries_tally rt e b [] c w = (c, (refl, omega arith))
collect_entries_tally rt e b (entry ∷ entries) c w =
    each (ingest_battle rt e b entry w) (λ d v. collect_entries_tally rt e b entries d v)
  where
    each :
        (x : Result IngestResult × World)
        → ((d : Collected) (v : World)
            → (r : Collected) × (((collect_entries rt e b entries d v).0 ≡ ok r)
                × (entries_of r ≡ entries_of d + length entries)))
        → (r : Collected) × (((branch
                (λ y. collect_entries rt e b entries (record c { errored = suc c.errored }))
                (λ s. collect_entries rt e b entries (count_result c s))
                x).0
              ≡ ok r)
            × (entries_of r ≡ entries_of c + suc (length entries)))
    each (ok s, v) later =
        let (r, (done, count)) = later (count_result c s) v in
        (r, (done, ground (arith, count_result-one c s)))
    each (err y, v) later =
        let (r, (done, count)) = later (record c { errored = suc c.errored }) v in
        (r, (done, omega arith))

abbrev is_active_brawler : ℕ → Brawler → Bool
is_active_brawler id b = b.id == id && b.is_active

-- The brawler of an id is in the table, and active.
abbrev pub active : ℕ → Db → Bool
active id d = any_where (is_active_brawler id) d.brawlers

update-stays :
    (p q : Brawler → Bool) (row : Brawler) (bs : List Brawler)
    → ((b : Brawler) → p b ≡ true → q b ≡ true → q row ≡ true)
    → any_where q bs ≡ true
    → any_where q (update_where p (λ b. row) bs) ≡ true
unfolding any_where update_where
update-stays p q row [] f h = cc
update-stays p q row (b ∷ bs) f h = ground (arith, f b, update-stays p q row bs f)

update-hits :
    (p q : Brawler → Bool) (row : Brawler) (bs : List Brawler)
    → q row ≡ true
    → any_where p bs ≡ true
    → any_where q (update_where p (λ b. row) bs) ≡ true
unfolding any_where update_where
update-hits p q row [] t h = absurd (cc)
update-hits p q row (b ∷ bs) t h = ground (arith, update-hits p q row bs t)

module _ (e : Env) (calm : Calm e) where
  upsert-hits :
      (b : BrawlerItem) (w : World)
      → active b.id (upsert_brawler e b.id b.name "" "" true w).1.db ≡ true
  unfolding upsert_brawler
  upsert-hits b w =
      let row : Brawler = record {
        id = b.id;
        name = b.name;
        rarity = some "";
        class = some "";
        is_active = true;
        updated_at = e.wall w.step;
      } in
      rw (Calm-exec e _ w calm) (
        ground (
          arith,
          update-hits (brawler_is b.id) (is_active_brawler b.id) row w.db.brawlers,
          any-append_hit (is_active_brawler b.id) w.db.brawlers row,
        ))

  upsert-stays :
      (id : ℕ) (b : BrawlerItem) (w : World)
      → active id w.db ≡ true
      → active id (upsert_brawler e b.id b.name "" "" true w).1.db ≡ true
  unfolding upsert_brawler
  upsert-stays id b w h =
      let row : Brawler = record {
        id = b.id;
        name = b.name;
        rarity = some "";
        class = some "";
        is_active = true;
        updated_at = e.wall w.step;
      } in
      rw (Calm-exec e _ w calm) (
        ground (
          arith,
          update-stays (brawler_is b.id) (is_active_brawler id) row w.db.brawlers
              (λ c. ground arith),
          any-append_true (is_active_brawler id) w.db.brawlers row,
        ))

  seed_items-stay :
      (id : ℕ) (bs : List BrawlerItem) → Keeps (λ w. active id w.db ≡ true) (seed_items e bs)
  unfolding seed_items
  seed_items-stay id [] = λ w h. h
  seed_items-stay id (b ∷ bs) =
      handle-keeps (λ w. active id w.db ≡ true) _ _ _ (upsert-stays id b)
        (λ x. seed_items-stay id bs) (λ u. seed_items-stay id bs)

  seed_items-next :
      (b : BrawlerItem) (bs : List BrawlerItem) (w : World)
      → (seed_items e (b ∷ bs) w) ≡ seed_items e bs (upsert_brawler e b.id b.name "" "" true w).1
  unfolding seed_items handle
  seed_items-next b bs w = next (upsert_brawler e b.id b.name "" "" true w)
    where
      next :
          (x : Result (Unit {0}) × World)
          → branch (λ y. seed_items e bs) (λ u. seed_items e bs) x ≡ seed_items e bs x.1
      next (ok u, v) = refl
      next (err y, v) = refl

  pub seed_items-active :
      (bs : List BrawlerItem) (w : World)
      → All (λ b. active b.id (seed_items e bs w).1.db ≡ true) bs
  seed_items-active [] w = tt
  seed_items-active (b ∷ bs) w =
      let v = (upsert_brawler e b.id b.name "" "" true w).1 in
      subst (λ r. All (λ c. active c.id r.1.db ≡ true) (b ∷ bs)) (sym (seed_items-next b bs w))
        (seed_items-stay b.id bs v (upsert-hits b w), seed_items-active bs v)

  seed_items-ok : (bs : List BrawlerItem) (w : World) → (seed_items e bs w).0 ≡ ok tt
  unfolding seed_items
  seed_items-ok [] w = refl
  seed_items-ok (b ∷ bs) w =
      ap (λ r. r.0) (seed_items-next b bs w)
      ∙ seed_items-ok bs (upsert_brawler e b.id b.name "" "" true w).1

run_seed-is :
    (e : Env) (api : Api) (resp : BrawlerListResponse) (w : World)
    → Calm e
    → api.brawlers w.step ≡ ok resp
    → run_seed_brawlers e api w
      ≡ (ok (length resp.items), (seed_items e resp.items (record w { step = suc w.step })).1)
unfolding run_seed_brawlers call
run_seed-is e api resp w calm answer =
    after-ok (call api.brawlers) _ _ resp w answer
    ∙ after-ok (seed_items e resp.items) _ _ tt _ (seed_items-ok e calm resp.items _)

-- Where no statement fails and nobody else writes, each brawler of the API is in the table and active
-- after runSeedBrawlers, which counts them all.
pub run_seed_brawlers_active :
    (e : Env) (api : Api) (resp : BrawlerListResponse) (w : World)
    → Calm e
    → api.brawlers w.step ≡ ok resp
    → ((run_seed_brawlers e api w).0 ≡ ok (length resp.items))
      × All (λ b. active b.id (run_seed_brawlers e api w).1.db ≡ true) resp.items
run_seed_brawlers_active e api resp w calm answer =
    subst (λ r. (r.0 ≡ ok (length resp.items)) × All (λ b. active b.id r.1.db ≡ true) resp.items)
      (sym (run_seed-is e api resp w calm answer)) (refl, seed_items-active e calm resp.items _)
