-- ===== src/Collector/History.antt =====
-- The programs that write the database, one after the other, and what the analytics may rely on.
use brawl_stars_guide.Base.{◌≡◌, sym, subst, Bool, List, [], All, Distinct, Text, ok, length}
use brawl_stars_guide.Apiclient.Types.{BattleEntry}
use brawl_stars_guide.Storage.Schema.{Db, Patch}
use brawl_stars_guide.Storage.Statement.{Env, World}
use brawl_stars_guide.Storage.Consistency.{Consistent}
use brawl_stars_guide.Ingestion.Runtime.{Runtime}
use brawl_stars_guide.Ingestion.Battle.Consistency.{Respectful}
use brawl_stars_guide.Crawler.Worker.{Worker, run_once}
use brawl_stars_guide.Crawler.Worker.Keys.{run_once-Consistent}
use brawl_stars_guide.Analytics.WinRates.{Float}
use brawl_stars_guide.Analytics.WinRates.Totals.{answer}
use brawl_stars_guide.Analytics.Maps.{MapEntry, MapListParams, map_list}
use brawl_stars_guide.Analytics.Maps.Qualifying.{rates_on}
use brawl_stars_guide.Analytics.Maps.Prediction.{maps_predict_rates}
use brawl_stars_guide.Collector.Commands.{
  Api, run_collect_player, run_seed_brawlers, run_repair_showdown,
}
use brawl_stars_guide.Collector.Keys.{collect-Sound, seed-Sound, repair-Sound}

-- The tables as the migrations leave them; patches are entered by hand.
abbrev pub migrated : List Patch → Db
migrated patches = record {
  players = [];
  targets = [];
  brawlers = [];
  patches = patches;
  events = [];
  battles = [];
  teams = [];
  participants = [];
  snapshots = [];
  brawler_snapshots = [];
  next_id = 1;
}

-- A program that takes the database from d to d', beside others that keep the tables consistent.
pub data Run (d d' : Db) : Type 0 where
  crawls :
      (k : Worker) (w : World) → Respectful k.env → w.db ≡ d → d' ≡ (run_once k w).1.db → Run d d'
  collects :
      (rt : Runtime) (e : Env) (api : Api) (tag : Text) (w : World)
      → Respectful e
      → w.db ≡ d
      → d' ≡ (run_collect_player rt e api tag w).1.db
      → Run d d'
  seeds :
      (e : Env) (api : Api) (w : World)
      → Respectful e
      → w.db ≡ d
      → d' ≡ (run_seed_brawlers e api w).1.db
      → Run d d'
  repairs :
      (rt : Runtime) (e : Env) (readable : BattleEntry → Bool) (w : World)
      → Respectful e
      → w.db ≡ d
      → d' ≡ (run_repair_showdown rt e readable w).1.db
      → Run d d'

-- The databases that follow from the migrations.
pub data History : Db → Type 0 where
  fresh : (patches : List Patch) → History (migrated patches)
  then_run : {d d' : Db} → History d → Run d d' → History d'

Run-Consistent : {d d' : Db} → Run d d' → Consistent d → Consistent d'
Run-Consistent (crawls k w respect before after) h =
    subst Consistent (sym after) (run_once-Consistent k w respect (subst Consistent (sym before) h))
Run-Consistent (collects rt e api tag w respect before after) h =
    subst Consistent (sym after)
      (collect-Sound e respect rt api tag w (subst Consistent (sym before) h))
Run-Consistent (seeds e api w respect before after) h =
    subst Consistent (sym after) (seed-Sound e respect api w (subst Consistent (sym before) h))
Run-Consistent (repairs rt e readable w respect before after) h =
    subst Consistent (sym after)
      (repair-Sound e respect rt readable w (subst Consistent (sym before) h))

migrated-Consistent : (patches : List Patch) → Consistent (migrated patches)
unfolding Distinct
migrated-Consistent patches = record {
  battles = tt;
  participants = tt;
  targets = tt;
  ids = tt;
  brawlers = tt;
}

History-Consistent : {d : Db} → History d → Consistent d
History-Consistent (fresh patches) = migrated-Consistent patches
History-Consistent (then_run hs r) = Run-Consistent r (History-Consistent hs)

-- The list of maps predicts the win rates on every database that the programs can have made: after
-- any sequence of crawls and of the commands that collect, seed and repair, from the migrated tables on
-- and beside others that keep the keys of the tables, each entry that MapList returns has as its
-- QualifyingBrawlers the number of brawlers that BrawlerWinRates, asked for that map with the default
-- bound of ten battles and no bucket, lists from the same database.
pub history_predicts_rates :
    (f : Float) (e : Env) (q : MapListParams) (w : World) (entries : List MapEntry)
    → History (e.others w.step w.db)
    → (map_list e q w).0 ≡ ok entries
    → All
        (λ m.
          m.qualifying_brawlers
          ≡ length (answer f (rates_on q m.map_name) (e.others w.step w.db)).brawlers)
        entries
history_predicts_rates f e q w entries hs listed =
    let consistent = History-Consistent hs in
    maps_predict_rates f e q w entries
      (record { ids = consistent.ids; known = consistent.brawlers }) listed
