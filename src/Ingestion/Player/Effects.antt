-- ===== src/Ingestion/Player/Effects.antt =====
-- ingestion/player_ingestor.go: from what its statements keep to what IngestPlayer keeps.
use brawl_stars_guide.Base.{
  ℕ, Text, String, List, [], ◌∷◌, Option, none, Bool-cases, inl, inr, ◌==◌, if◌then◌else◌,
}
use brawl_stars_guide.Apiclient.Types.{PlayerResponse, PlayerBrawler}
use brawl_stars_guide.Storage.Statement.{Env, World, return, ◌>>◌}
use brawl_stars_guide.Storage.Statement.Keeps.{Keeps, handle-keeps, bind-keeps}
use brawl_stars_guide.Storage.Players.{
  PlayerSnapshotParams, BrawlerSnapshotParams, upsert_player, update_player_crawled,
  insert_player_snapshot, insert_player_brawler_snapshot,
}
use brawl_stars_guide.Storage.Patches.{patch_id_for_time}
use brawl_stars_guide.Ingestion.Runtime.{Runtime}
use brawl_stars_guide.Ingestion.Player.{
  write_brawlers, write_snapshot, take_snapshot, ingest_player,
}

-- The statements of IngestPlayer, each keeping P.
pub record PlayerOps (P : World → Type 0) (e : Env) : Type 0 where
  pub upsert : (tag : Text) (name : String) → Keeps P (upsert_player e tag name)
  pub patch : (t : ℕ) → Keeps P (patch_id_for_time e t)
  pub snapshot : (p : PlayerSnapshotParams) → Keeps P (insert_player_snapshot e p)
  pub brawler : (p : BrawlerSnapshotParams) → Keeps P (insert_player_brawler_snapshot e p)
  pub crawled : (tag : Text) → Keeps P (update_player_crawled e tag)

module _ (P : World → Type 0) (rt : Runtime) (e : Env) (o : PlayerOps P e) where
  brawlers-keeps : (id : ℕ) (bs : List PlayerBrawler) → Keeps P (write_brawlers e id bs)
  unfolding write_brawlers
  brawlers-keeps id [] = λ w h. h
  brawlers-keeps id (b ∷ bs) = bind-keeps P _ _ (o.brawler _) (λ u. brawlers-keeps id bs)

  written-keeps :
      (resp : PlayerResponse) (tag : Text) (id : ℕ)
      → Keeps P (
          if id == 0
          then return 0
          else (write_brawlers e id resp.brawlers >> (update_player_crawled e tag >> return id)))
  written-keeps resp tag id = elim (Bool-cases (id == 0)) [
    | inl z ↦ rw z (λ w h. h)
    | inr nz ↦ rw nz (
        bind-keeps P _ _ (brawlers-keeps id resp.brawlers)
          λ u. bind-keeps P _ _ (o.crawled tag) (λ v w h. h))
  ]

  snapshot-keeps :
      (resp : PlayerResponse) (at : ℕ) (patch_id : Option ℕ)
      → Keeps P (write_snapshot rt e resp at patch_id)
  unfolding write_snapshot
  snapshot-keeps resp at patch_id = bind-keeps P _ _ (o.snapshot _) (λ id. written-keeps resp _ id)

  take-keeps : (resp : PlayerResponse) → Keeps P (take_snapshot rt e resp)
  unfolding take_snapshot
  take-keeps resp w h =
      handle-keeps P _ _ _ (o.patch (e.wall w.step)) (λ x. snapshot-keeps resp _ none)
        (snapshot-keeps resp _) w h

  pub ingest_player-keeps : (resp : PlayerResponse) → Keeps P (ingest_player rt e resp)
  unfolding ingest_player
  ingest_player-keeps resp = bind-keeps P _ _ (o.upsert _ _) (λ u. take-keeps resp)
