-- ===== src/Ingestion/Player.antt =====
-- ingestion/player_ingestor.go: IngestPlayer. json.Marshal of the profile does not fail.
pub mod Effects
use brawl_stars_guide.Base.{
  ℕ, ◌%◌, Bool, Text, String, List, [], ◌∷◌, map, Option, none, some, Error, Result, ok, err, ◌==◌,
  if◌then◌else◌, word32,
}
use brawl_stars_guide.Apiclient.Types.{PlayerResponse, PlayerBrawler, PlayerClub}
use brawl_stars_guide.Apiclient.Tags.{normalize_tag}
use brawl_stars_guide.Domain.{bucket_for_trophies}
use brawl_stars_guide.Storage.Statement.{Env, World, M, handle, pure, return, ◌>>=◌, ◌>>◌}
use brawl_stars_guide.Storage.Players.{
  PlayerSnapshotParams, BrawlerSnapshotParams, upsert_player, update_player_crawled,
  insert_player_snapshot, insert_player_brawler_snapshot,
}
use brawl_stars_guide.Storage.Patches.{patch_id_for_time}
use brawl_stars_guide.Ingestion.Runtime.{Runtime}

-- int32(id), as a bit pattern.
abbrev to_int32 : ℕ → ℕ
to_int32 n = n % word32

unfoldable pub brawler_snapshot_params : ℕ → PlayerBrawler → BrawlerSnapshotParams
brawler_snapshot_params snapshot_id b = record {
  snapshot_id = snapshot_id;
  brawler_id = b.id;
  power = b.power;
  rank = b.rank;
  trophies = b.trophies;
  highest_trophies = b.highest_trophies;
  star_power_ids = map (λ s. to_int32 s.id) b.star_powers;
  gadget_ids = map (λ g. to_int32 g.id) b.gadgets;
  gears = b.gears;
}

unfoldable pub write_brawlers : Env → ℕ → List PlayerBrawler → M (Unit {0})
write_brawlers e snapshot_id [] = return tt
write_brawlers e snapshot_id (b ∷ bs) =
    insert_player_brawler_snapshot e (brawler_snapshot_params snapshot_id b)
    >> write_brawlers e snapshot_id bs

unfoldable pub snapshot_params : Runtime → PlayerResponse → ℕ → Option ℕ → PlayerSnapshotParams
snapshot_params rt resp at patch_id = record {
  player_tag = normalize_tag rt.wide resp.tag;
  snapshot_at = at;
  patch_id = patch_id;
  trophies = resp.trophies;
  highest_trophies = resp.highest_trophies;
  exp_level = resp.exp_level;
  three_v_three_wins = resp.three_v_three_wins;
  solo_victories = resp.solo_victories;
  duo_victories = resp.duo_victories;
  club_tag = elim resp.club [ none ↦ none | some c ↦ some (normalize_tag rt.wide c.tag) ];
  club_name = elim resp.club [ none ↦ none | some c ↦ some c.name ];
  trophy_bucket = bucket_for_trophies resp.trophies;
  raw_data = resp;
}

-- From the snapshot on. The id 0 says that there is one of this time already.
unfoldable pub write_snapshot : Runtime → Env → PlayerResponse → ℕ → Option ℕ → M ℕ
write_snapshot rt e resp at patch_id =
    insert_player_snapshot e (snapshot_params rt resp at patch_id) >>= λ id.
    if id == 0
    then return 0
    else (write_brawlers e id resp.brawlers
        >> (update_player_crawled e (normalize_tag rt.wide resp.tag) >> return id))

-- time.Now() is read after the player's row is written. A failed patch lookup gives NULL.
unfoldable pub take_snapshot : Runtime → Env → PlayerResponse → M ℕ
take_snapshot rt e resp w =
    let at = e.wall w.step in
    handle (patch_id_for_time e at) (λ x. write_snapshot rt e resp at none)
      (write_snapshot rt e resp at) w

unfoldable pub ingest_player : Runtime → Env → PlayerResponse → M ℕ
ingest_player rt e resp =
    upsert_player e (normalize_tag rt.wide resp.tag) resp.name >> take_snapshot rt e resp
