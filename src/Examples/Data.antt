-- ===== src/Examples/Data.antt =====
-- A database of two crawl targets, and a worker that a calm environment serves.
use brawl_stars_guide.Base.{
  ℕ, true, false, Text, codes, List, [], ◌∷◌, Option, some, none, ℤ, pos, negsuc, api_error, err,
}
use brawl_stars_guide.Ratelimit.{granted}
use brawl_stars_guide.Storage.Schema.{Db, Target}
use brawl_stars_guide.Storage.Statement.{Env, World}
use brawl_stars_guide.Storage.Crawl.{ClaimResult, claim_of}
use brawl_stars_guide.Ingestion.Runtime.{Runtime}
use brawl_stars_guide.Crawler.Worker.{Worker, WorkerConfig}

abbrev pub target : Text → ℕ → Option ℕ → Target
target tag priority bucket = record {
  player_tag = tag;
  priority = priority;
  next_crawl_at = 5;
  last_crawled_at = none;
  last_crawl_status = none;
  consecutive_failures = 2;
  discovery_source = "seed";
  discovery_via_player = [];
  trophy_estimate = none;
  player_trophy_bucket = bucket;
  crawl_count = 0;
  is_active = true;
  crawl_generation = 4;
  leased_until = none;
  created_at = 1;
  updated_at = 1;
}

abbrev pub alice : Target
alice = target (codes "ALICE") 1 none

abbrev pub bob : Target
bob = target (codes "BOB") 3 (some 2)

abbrev pub db_of : List Target → Db
db_of rows = record {
  players = [];
  targets = rows;
  brawlers = [];
  patches = [];
  events = [];
  battles = [];
  teams = [];
  participants = [];
  snapshots = [];
  brawler_snapshots = [];
  next_id = 1;
}

abbrev pub two_targets : Db
two_targets = db_of (bob ∷ alice ∷ [])

-- Alice is known as a player.
abbrev pub alice_known : Db
alice_known = record two_targets {
  players =
      record {
        tag = codes "ALICE";
        name = "Alice";
        first_seen_at = 1;
        last_crawled_at = none;
        crawl_count = 0;
      }
      ∷ [];
}

-- Nothing fails and nobody else is there.
abbrev pub calm : Env
calm = record {
  db_now = λ t. 1000;
  wall = λ t. 1000;
  fails = λ t. false;
  commit_fails = λ t. false;
  others = λ t d. d;
  locked = λ t tag. false;
  pick = λ t. 0;
  below = λ t cap seen. true;
}

abbrev pub first_step : World
first_step = record { step = 0; db = two_targets; discoveries = 0 }

abbrev pub runtime : Runtime
runtime = record {
  wide = λ c. c;
  show_brawler = λ id. "BRAWLER";
  sha256_hex = λ t. t;
  parse_time = λ t. some 7;
  format_time = λ t. codes "20240901T143022.000Z";
}

abbrev pub cfg : WorkerConfig
cfg = record { max_discoveries_per_crawl = pos 50; max_active_targets = pos 2; bucket_cap = pos 1 }

-- The conversion of amd64.
abbrev wrapping : ℕ → ℤ
wrapping d = negsuc 9223372036854775807

-- An API whose key is refused.
abbrev pub refused : Worker
refused = record {
  runtime = runtime;
  env = calm;
  outside = record {
    player = λ t tag. err (api_error 403 (codes "/players"));
    battle_log = λ t tag. err (api_error 403 (codes "/players"));
    limiter = λ t. granted;
    cancelled = λ t. false;
    to_int64 = wrapping;
  };
  cfg = cfg;
}

abbrev pub alice_claim : ClaimResult
alice_claim = claim_of alice
