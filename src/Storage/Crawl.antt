-- ===== src/Storage/Crawl.antt =====
-- storage/queries/crawl.go: the crawl queue, its leases and its compare-and-update.
pub mod Order
pub mod Claim
pub mod Finalize
pub mod Stages
pub mod Rows
pub mod Picks
pub mod Edges
pub mod Refinement
pub mod History
pub mod Counts
pub mod Standing
pub mod Fencing
use brawl_stars_guide.Base.{
  ℕ, suc, ◌+◌, ◌≡◌, refl, Bool, true, false, ◌&&◌, not, Text, text_eq, Option, none, some, List, [],
  ◌∷◌, Error, no_rows, Result, ok, err, ltb, leb, ◌==◌, if◌then◌else◌, incr32, find_where,
  count_where, update_where, least_where,
}
use brawl_stars_guide.Storage.Schema.{Db, Target, Status}
use brawl_stars_guide.Storage.Statement.{Env, World, M, Statement, exec, handle, branch, pure}

pub record ClaimResult : Type 0 where
  pub player_tag : Text
  pub generation : ℕ
  pub priority : ℕ
  pub consecutive_failures : ℕ
  pub is_classified : Bool

abbrev pub is_some {ℓ} : {A : Type ℓ} → Option A → Bool
is_some none = false
is_some (some a) = true

abbrev pub has_tag : Text → Target → Bool
has_tag tag r = text_eq r.player_tag tag

-- leased_until IS NULL OR leased_until < NOW()
abbrev pub lease_over : ℕ → Option ℕ → Bool
lease_over now none = true
lease_over now (some t) = ltb t now

-- The WHERE clause of the claim and of QueueDepth.
unfoldable pub claimable : ℕ → Target → Bool
claimable now r = r.is_active && leb r.next_crawl_at now && lease_over now r.leased_until

-- ORDER BY priority ASC, next_crawl_at ASC
unfoldable pub comes_before : Target → Target → Bool
comes_before a b =
    if ltb a.priority b.priority
    then true
    else if a.priority == b.priority
    then ltb a.next_crawl_at b.next_crawl_at
    else false

-- INTERVAL '10 minutes'
abbrev pub lease_time : ℕ
lease_time = 600000000000

-- The row that the SELECT … FOR UPDATE SKIP LOCKED returns.
unfoldable pub next_target : (Text → Bool) → ℕ → List Target → Option Target
next_target locked now =
    least_where (λ r. claimable now r && not (locked r.player_tag)) comes_before

abbrev pub claim_of : Target → ClaimResult
claim_of r = record {
  player_tag = r.player_tag;
  generation = incr32 r.crawl_generation;
  priority = r.priority;
  consecutive_failures = r.consecutive_failures;
  is_classified = is_some r.player_trophy_bucket;
}

abbrev pub lease_row : ℕ → ℕ → Target → Target
lease_row gen now r = record r {
  crawl_generation = gen;
  leased_until = some (now + lease_time);
  updated_at = now;
}

abbrev pub claim_found : ℕ → Db → Option Target → Result (Option ClaimResult) × Db
claim_found now db none = (ok none, db)
claim_found now db (some r) = (
  ok (some (claim_of r)),
  record db {
    targets =
        update_where (has_tag r.player_tag) (lease_row (incr32 r.crawl_generation) now) db.targets;
  },
)

unfoldable pub claim_statement : (Text → Bool) → Statement (Option ClaimResult)
claim_statement locked now db = claim_found now db (next_target locked now db.targets)

unfoldable pub claim_next_target : Env → M (Option ClaimResult)
claim_next_target e w = exec e (claim_statement (e.locked w.step)) w

pub record FinalizeParams : Type 0 where
  pub player_tag : Text
  pub generation : ℕ
  pub status : Status
  pub next_crawl_at : ℕ
  pub consecutive_failures : ℕ
  pub is_active : Bool

abbrev pub finalize_row : FinalizeParams → ℕ → Target → Target
finalize_row p now r = record r {
  last_crawl_status = some p.status;
  next_crawl_at = p.next_crawl_at;
  consecutive_failures = p.consecutive_failures;
  is_active = p.is_active;
  crawl_count = suc r.crawl_count;
  last_crawled_at = some now;
  leased_until = none;
  updated_at = now;
}

-- WHERE player_tag = $5 AND crawl_generation = $6
abbrev pub owns : Text → ℕ → Target → Bool
owns tag gen r = has_tag tag r && r.crawl_generation == gen

unfoldable pub finalize_statement : FinalizeParams → Statement Bool
finalize_statement p now db =
    let mine = owns p.player_tag p.generation in
    (
      ok (count_where mine db.targets == 1),
      record db { targets = update_where mine (finalize_row p now) db.targets },
    )

unfoldable pub finalize_crawl : Env → FinalizeParams → M Bool
finalize_crawl e p = exec e (finalize_statement p)

-- The lease is live: not NULL and not before time.Now().
abbrev pub lease_live : ℕ → Option ℕ → Bool
lease_live now none = false
lease_live now (some t) = not (ltb t now)

abbrev owned_row : ℕ → ℕ → Option Target → Result Bool
owned_row generation now none = err no_rows
owned_row generation now (some r) =
    ok (r.crawl_generation == generation && lease_live now r.leased_until)

-- `now` is time.Now() of the process, not of the database.
unfoldable pub ownership_statement : Text → ℕ → ℕ → Statement Bool
ownership_statement tag generation now _ db =
    (owned_row generation now (find_where (has_tag tag) db.targets), db)

unfoldable pub ownership_valid : Env → Text → ℕ → M Bool
ownership_valid e tag generation w = exec e (ownership_statement tag generation (e.wall w.step)) w

unfoldable pub queue_depth : Env → M ℕ
queue_depth e = exec e (λ now db. (ok (count_where (claimable now) db.targets), db))
