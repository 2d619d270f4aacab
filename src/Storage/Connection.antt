-- ===== src/Storage/Connection.antt =====
-- storage/db.go: Connect. The errors of pgxpool are told apart by where they arise.
use brawl_stars_guide.Base.{Bool, true, false, String, if◌then◌else◌}

-- pgxpool, by the outcome of each of its calls for a DSN.
pub record Driver : Type 0 where
  pub parses : String → Bool  -- ParseConfig
  pub creates : String → Bool  -- NewWithConfig
  pub pings : String → Bool  -- Ping of the new pool

pub data ConnectError : Type 0 where
  parse_database_url create_pool ping_database : ConnectError

-- What Connect returns, and whether a pool is left open.
pub data Connection : Type 0 where
  connected : Connection
  failed : ConnectError → Connection

abbrev pub pool_open : Connection → Bool
pool_open connected = true
pool_open (failed x) = false

-- A pool that does not answer is closed.
unfoldable pub connect : Driver → String → Connection
connect d dsn =
    if d.parses dsn
    then if d.creates dsn
      then if d.pings dsn then connected else failed ping_database
      else failed create_pool
    else failed parse_database_url
