-- ===== src/Collector/Keys.antt =====
-- collector/cmd/collector/main.go: the keys of the tables over the commands.
use brawl_stars_guide.Base.{true, Bool, List, [], ◌∷◌, Text}
use brawl_stars_guide.Apiclient.Types.{BattleEntry, BrawlerItem}
use brawl_stars_guide.Storage.Statement.{Env}
use brawl_stars_guide.Storage.Statement.Keeps.{Keeps, handle-keeps, bind-keeps}
use brawl_stars_guide.Storage.Brawlers.{upsert_brawler}
use brawl_stars_guide.Storage.Consistency.{Consistent, ensure-Consistent, participant-Consistent}
use brawl_stars_guide.Storage.Consistency.Updates.{upsert-Consistent}
use brawl_stars_guide.Ingestion.Runtime.{Runtime}
use brawl_stars_guide.Ingestion.Discovery.{BattleIngestor, new_battle_ingestor}
use brawl_stars_guide.Ingestion.Battle.Consistency.{Respectful, Sound, by_statement, key_ops}
use brawl_stars_guide.Ingestion.Battle.Effects.{ingest_battle-keeps}
use brawl_stars_guide.Ingestion.Player.Effects.{ingest_player-keeps}
use brawl_stars_guide.Crawler.Worker.{call}
use brawl_stars_guide.Crawler.Worker.Keys.{player_ops}
use brawl_stars_guide.Collector.Commands.{
  Api, Collected, collect_entries, none_collected, run_collect_player, seed_items,
  run_seed_brawlers, deferred_battles, run_repair_showdown,
}
use brawl_stars_guide.Collector.Repair.{repair_battles-keeps}

module _ (e : Env) (respect : Respectful e) where
  entries-Sound :
      (rt : Runtime) (b : BattleIngestor) (entries : List BattleEntry) (c : Collected)
      → Keeps Sound (collect_entries rt e b entries c)
  unfolding collect_entries
  entries-Sound rt b [] c = λ w h. h
  entries-Sound rt b (entry ∷ entries) c =
      handle-keeps Sound _ _ _ (ingest_battle-keeps Sound rt e b (key_ops rt e b respect) entry)
        (λ x. entries-Sound rt b entries _) (λ r. entries-Sound rt b entries _)

  pub collect-Sound :
      (rt : Runtime) (api : Api) (tag : Text) → Keeps Sound (run_collect_player rt e api tag)
  unfolding run_collect_player call new_battle_ingestor
  collect-Sound rt api tag =
      bind-keeps Sound _ _ (λ w h. h)
        λ profile.
          bind-keeps Sound _ _ (ingest_player-keeps Sound rt e (player_ops e respect) profile) λ id.
            bind-keeps Sound _ _ (λ w h. h)
              λ log.
                bind-keeps Sound _ _ (λ w h. h) λ b. entries-Sound rt b log.items none_collected

  upsert-Sound : (b : BrawlerItem) → Keeps Sound (upsert_brawler e b.id b.name "" "" true)
  unfolding upsert_brawler
  upsert-Sound b w h = by_statement e respect _ (λ now d k. upsert-Consistent d _ k) w h

  items-Sound : (bs : List BrawlerItem) → Keeps Sound (seed_items e bs)
  unfolding seed_items
  items-Sound [] = λ w h. h
  items-Sound (b ∷ bs) =
      handle-keeps Sound _ _ _ (upsert-Sound b) (λ x. items-Sound bs) (λ u. items-Sound bs)

  pub seed-Sound : (api : Api) → Keeps Sound (run_seed_brawlers e api)
  unfolding run_seed_brawlers call
  seed-Sound api =
      bind-keeps Sound _ _ (λ w h. h)
        λ resp. bind-keeps Sound _ _ (items-Sound resp.items) (λ u w h. h)

  pub repair-Sound :
      (rt : Runtime) (readable : BattleEntry → Bool)
      → Keeps Sound (run_repair_showdown rt e readable)
  unfolding run_repair_showdown deferred_battles
  repair-Sound rt readable = bind-keeps Sound _ _ (by_statement e respect _ (λ now d h. h)) λ bs.
      repair_battles-keeps Consistent rt e respect (λ n name. ensure-Consistent n name)
        participant-Consistent readable bs _
