-- ===== src/Lib.antt =====
-- Verification library of the Brawl Stars data collector: the crawl queue, its workers and their
-- scheduler, the ingestion of profiles and battles, what these use, the commands that run them, and the
-- win rates that the REST API computes from what they store.
--
-- The collector crawls players of the game. A worker claims the most urgent row of the table
-- crawl_targets under a lease, fetches the player's profile and battle log at a fixed rate, checks
-- that the lease is still its own, stores the profile and the battles, puts the players that it
-- discovers into the queue, classifies and samples the player by trophies, and finalizes the row with
-- the time of the next crawl. A scheduler runs some workers beside each other, in one process or many;
-- the collector command starts it with the settings of the environment, and has commands of its own
-- that collect one player, seed the brawlers, repair stored battles and migrate the schema. The API
-- answers requests for the win rates of brawlers and for the list of maps.
--
-- Files and what they model (paths from the root of the repository):
--   Base                  numbers, integers, texts, rows of a table, joins, groups and orders of rows, and
--                         errors that all parts share
--   Domain                internal/domain: BucketForTrophies, PriorityForTrophies
--   Ratelimit             internal/ratelimit/limiter.go: Limiter, New, Wait
--   Apiclient             internal/apiclient: types.go (Types), NormalizeTag and encodedTag (Tags),
--                         ParseBattleTime (Times), the client and its errors (Client)
--   Storage/Schema        db/migrations: the rows of the tables
--   Storage/Connection    internal/storage/db.go: Connect
--   Storage/Statement     statements and transactions through pgx, as a state monad with errors
--   Storage/Crawl         internal/storage/queries/crawl.go: the claim, FinalizeCrawl, OwnershipValid
--   Storage/Sampling      internal/storage/queries/sampling.go: ClassifyAndSampleTarget
--   Storage/Players, Storage/Battles, Storage/Brawlers, Storage/Patches
--                         the files of internal/storage/queries of these names
--   Ingestion/Fingerprint internal/ingestion/fingerprint.go
--   Ingestion/TeamResults, Ingestion/Discovery, Ingestion/Battle
--                         internal/ingestion/battle_ingestor.go
--   Ingestion/Player      internal/ingestion/player_ingestor.go
--   Crawler/Backoff, Crawler/Worker, Crawler/Worker/Endings
--                         internal/crawler/worker.go
--   Crawler/Scheduler     internal/crawler/scheduler.go: Run and RunN
--   Analytics/Filters, Analytics/WinRates
--                         internal/analytics/winrate.go
--   Analytics/Maps        internal/analytics/maps.go
--   Api, Api/Handlers     api/cmd/api/main.go
--   Collector, Collector/Commands, Collector/Launch
--                         collector/cmd/collector/main.go
--   Collector/History     sequences of crawls and commands, from the migrated database on
--   Examples              tests and instances of the theorems
-- A Go function keeps its name in snake case. The sections of a long function, and the bodies of its
-- loops, are functions of their own, each calling the next one as the code goes on. The modules below
-- these files hold the theorems.
--
-- State and steps. A `World` is the database, the counter of discoveries of the battle ingestor, and
-- the number of the next step. A statement, or a transaction of one query function, is one step:
-- before it, others commit what they like (`Env.others`); it may fail, which leaves the database to
-- what others did; else it sees one NOW(). The classifying transaction may also fail at its COMMIT. A
-- call of the limiter or of the API is a step too, so what others do and what the context says may
-- change around it. The goroutines of a scheduler are an explicit interleaving of the rounds of their
-- loops (`Move`): a goroutine enters RunOnce where its context is not cancelled, does with the result what
-- its round says, sleeps, wakes, or returns.
--
-- The abstract view of the queue (Storage/Crawl/Stages) is the life of one player: absent, or queued with
-- its activity, the time it is due, the end of its lease and its generation; a history
-- (Storage/Crawl/History) is a sequence of committed statements of any processes.
--
-- Representation. Times and durations are nanoseconds in ℕ. An int32 column is a bit pattern with its
-- wrap-around written out. Identifiers, counts and levels are natural numbers; trophies and the
-- configured bounds are signed and unbounded, as Go's int on 64 bits is for these values. Tags are
-- lists of code points; other strings are opaque. The ids that sequences would give come from one
-- counter. Wrapped errors are what lies at the bottom of their chain. Loops run over lists by
-- structural recursion, so that no fuel is needed; the endless loops of the scheduler are sequences of
-- moves of any length.
--
-- Queries. A JOIN is a flat map over the rows, GROUP BY keeps its groups in the order of their first
-- rows, and ORDER BY inserts each row before those that it does not follow; an order that SQL leaves
-- open among equal rows is thus fixed. The shares of wins are compared crosswise, which the digits of
-- NUMERIC decide alike for counts below 10^8.
--
-- Parameters. The network, the JSON decoder, the clocks, the random draws, SHA-256, the parsing and
-- formatting of times, unicode.ToUpper from the code point 128 on, the machine's conversion of a
-- large float64 to an integer, the operations on float64 (whose values are bit patterns), strconv, the
-- environment, strings.Replace and golang-migrate are arguments; json.Marshal of a decoded value does
-- not fail.
--
-- Not modelled: log lines, but for what the statistics of Run read; the inside of pgxpool and of the HTTP
-- transport and server, the encoding of responses; the closing of a pool or a migrator at the end of a
-- command; the text of the usage; the indexes other than the unique keys, which change no result; the
-- Makefile and the containers.
pub mod Base
pub mod Domain
pub mod Ratelimit
pub mod Apiclient
pub mod Storage
pub mod Ingestion
pub mod Crawler
pub mod Analytics
pub mod Api
pub mod Collector
pub mod Examples
