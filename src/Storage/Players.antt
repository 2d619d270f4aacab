-- ===== src/Storage/Players.antt =====
-- storage/queries/players.go: players, snapshots and the enqueueing of discovered players.
use brawl_stars_guide.Base.{
  ℕ, suc, Bool, true, false, ◌&&◌, Text, text_eq, String, Option, none, some, List, [], ◌∷◌, ◌++◌,
  ℤ, Error, no_rows, other, ok, err, ◌==◌, if◌then◌else◌, any_where, update_where,
}
use brawl_stars_guide.Apiclient.Types.{PlayerResponse, Gear}
use brawl_stars_guide.Storage.Schema.{Player, Target, PlayerSnapshot, BrawlerSnapshot}
use brawl_stars_guide.Storage.Statement.{Env, M, Statement, exec, handle, pure, ◌>>◌, return}
use brawl_stars_guide.Storage.Crawl.{has_tag}

abbrev pub player_is : Text → Player → Bool
player_is tag p = text_eq p.tag tag

abbrev pub new_player : Text → String → ℕ → Player
new_player tag name now = record {
  tag = tag;
  name = name;
  first_seen_at = now;
  last_crawled_at = none;
  crawl_count = 0;
}

unfoldable pub upsert_player : Env → Text → String → M (Unit {0})
upsert_player e tag name = exec e λ now db. (
  ok tt,
  record db {
    players =
        if any_where (player_is tag) db.players
        then update_where (player_is tag) (λ p. record p { name = name }) db.players
        else db.players ++ new_player tag name now ∷ [];
  },
)

unfoldable pub update_player_crawled : Env → Text → M (Unit {0})
update_player_crawled e tag = exec e λ now db. (
  ok tt,
  record db {
    players =
        update_where (player_is tag)
          (λ p. record p { last_crawled_at = some now; crawl_count = suc p.crawl_count })
          db.players;
  },
)

pub record PlayerSnapshotParams : Type 0 where
  pub player_tag : Text
  pub snapshot_at : ℕ
  pub patch_id : Option ℕ
  pub trophies : ℤ
  pub highest_trophies : ℤ
  pub exp_level : ℕ
  pub three_v_three_wins : ℕ
  pub solo_victories : ℕ
  pub duo_victories : ℕ
  pub club_tag : Option Text
  pub club_name : Option String
  pub trophy_bucket : ℕ
  pub raw_data : PlayerResponse

abbrev snapshot_row : ℕ → PlayerSnapshotParams → PlayerSnapshot
snapshot_row id p = record {
  id = id;
  player_tag = p.player_tag;
  snapshot_at = p.snapshot_at;
  patch_id = p.patch_id;
  trophies = p.trophies;
  highest_trophies = p.highest_trophies;
  exp_level = p.exp_level;
  three_v_three_wins = p.three_v_three_wins;
  solo_victories = p.solo_victories;
  duo_victories = p.duo_victories;
  club_tag = p.club_tag;
  club_name = p.club_name;
  trophy_bucket = p.trophy_bucket;
  raw_data = p.raw_data;
}

abbrev pub snapshot_key : Text → ℕ → PlayerSnapshot → Bool
snapshot_key tag at s = text_eq s.player_tag tag && s.snapshot_at == at

-- The INSERT … ON CONFLICT DO NOTHING RETURNING id. The player must exist (a foreign key).
unfoldable pub snapshot_statement : PlayerSnapshotParams → Statement ℕ
snapshot_statement p now db =
    if any_where (snapshot_key p.player_tag p.snapshot_at) db.snapshots
    then (err no_rows, db)
    else if any_where (player_is p.player_tag) db.players
    then (
      ok db.next_id,
      record db {
        snapshots = db.snapshots ++ snapshot_row db.next_id p ∷ [];
        next_id = suc db.next_id;
      },
    )
    else (err other, db)

-- ErrNoRows becomes the id 0.
abbrev pub zero_if_no_rows : Error → M ℕ
zero_if_no_rows e = elim e [ no_rows ↦ return 0 | x ↦ pure (err x) ]

unfoldable pub insert_player_snapshot : Env → PlayerSnapshotParams → M ℕ
insert_player_snapshot e p = handle (exec e (snapshot_statement p)) zero_if_no_rows return

pub record BrawlerSnapshotParams : Type 0 where
  pub snapshot_id : ℕ
  pub brawler_id : ℕ
  pub power : ℕ
  pub rank : ℕ
  pub trophies : ℤ
  pub highest_trophies : ℤ
  pub star_power_ids : List ℕ
  pub gadget_ids : List ℕ
  pub gears : List Gear

abbrev brawler_snapshot_row : BrawlerSnapshotParams → BrawlerSnapshot
brawler_snapshot_row p = record {
  snapshot_id = p.snapshot_id;
  brawler_id = p.brawler_id;
  power = p.power;
  rank = p.rank;
  trophies = p.trophies;
  highest_trophies = p.highest_trophies;
  star_powers = p.star_power_ids;
  gadgets = p.gadget_ids;
  gears = p.gears;
}

abbrev pub brawler_snapshot_key : ℕ → ℕ → BrawlerSnapshot → Bool
brawler_snapshot_key snapshot_id brawler_id s =
    s.snapshot_id == snapshot_id && s.brawler_id == brawler_id

-- ON CONFLICT (snapshot_id, brawler_id) DO NOTHING. The brawler must exist (a foreign key).
unfoldable pub brawler_snapshot_statement : BrawlerSnapshotParams → Statement (Unit {0})
brawler_snapshot_statement p now db =
    if any_where (brawler_snapshot_key p.snapshot_id p.brawler_id) db.brawler_snapshots
    then (ok tt, db)
    else if any_where (λ b. b.id == p.brawler_id) db.brawlers
    then (
      ok tt,
      record db { brawler_snapshots = db.brawler_snapshots ++ brawler_snapshot_row p ∷ [] },
    )
    else (err other, db)

unfoldable pub insert_player_brawler_snapshot : Env → BrawlerSnapshotParams → M (Unit {0})
insert_player_brawler_snapshot e p = exec e (brawler_snapshot_statement p)

abbrev pub insert_unknown_player : Text → String → ℕ → List Player → List Player
insert_unknown_player tag name now ps =
    if any_where (player_is tag) ps then ps else ps ++ new_player tag name now ∷ []

-- A new row of crawl_targets, with the defaults of the schema.
abbrev pub new_target : Text → String → Text → ℕ → Target
new_target tag source via now = record {
  player_tag = tag;
  priority = 5;
  next_crawl_at = now;
  last_crawled_at = none;
  last_crawl_status = none;
  consecutive_failures = 0;
  discovery_source = source;
  discovery_via_player = via;
  trophy_estimate = none;
  player_trophy_bucket = none;
  crawl_count = 0;
  is_active = true;
  crawl_generation = 0;
  leased_until = none;
  created_at = now;
  updated_at = now;
}

-- The INSERT into crawl_targets; the result is RowsAffected() == 1. The player must exist.
unfoldable pub enqueue_statement : Text → String → Text → Statement Bool
enqueue_statement tag source via now db =
    if any_where (has_tag tag) db.targets
    then (ok false, db)
    else if any_where (player_is tag) db.players
    then (ok true, record db { targets = db.targets ++ new_target tag source via now ∷ [] })
    else (err other, db)

unfoldable pub enqueue_discovered_player : Env → Text → String → String → Text → M Bool
enqueue_discovered_player e tag name source via = do
  exec e λ now db. (ok tt, record db { players = insert_unknown_player tag name now db.players })
  exec e (enqueue_statement tag source via)
