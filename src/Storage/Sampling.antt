-- ===== src/Storage/Sampling.antt =====
-- storage/queries/sampling.go: classification of a target and reservoir sampling of its bucket.
-- A transaction is one step; a failure of any of its statements rolls it back.
pub mod Reservoir
pub mod Atomic
use brawl_stars_guide.Base.{
  ℕ, suc, ◌%◌, Bool, true, false, ◌&&◌, ◌||◌, not, Text, text_eq, Option, none, some, List, ℤ, pos,
  pos_part, Result, ok, err, ltb, leb, leb_ℤ, ◌==◌, if◌then◌else◌, length, get_elem?, count_where,
  update_where, keep_where,
}
use brawl_stars_guide.Storage.Schema.{Db, Target, Status, sampled_out}
use brawl_stars_guide.Storage.Statement.{Env, World, M, Statement, exec}
use brawl_stars_guide.Storage.Crawl.{has_tag, lease_over}

-- player_trophy_bucket = b, which no NULL satisfies.
abbrev pub in_bucket : ℕ → Target → Bool
in_bucket b r = elim r.player_trophy_bucket [ none ↦ false | some c ↦ c == b ]

abbrev pub unclassified : Target → Bool
unclassified r = elim r.player_trophy_bucket [ none ↦ true | some c ↦ false ]

abbrev pub classify_row : ℕ → ℕ → ℤ → ℕ → Target → Target
classify_row bucket priority trophies now r = record r {
  player_trophy_bucket = some bucket;
  priority = priority;
  trophy_estimate = some trophies;
  updated_at = now;
}

-- Step 1: the UPDATE of the target itself.
unfoldable pub classify : Text → ℕ → ℕ → ℤ → ℕ → List Target → List Target
classify tag bucket priority trophies now =
    update_where (λ r. has_tag tag r && unclassified r) (classify_row bucket priority trophies now)

-- The active rows of the bucket but the player's own.
abbrev pub active_other : ℕ → Text → Target → Bool
active_other bucket tag r = in_bucket bucket r && r.is_active && not (has_tag tag r)

abbrev pub evictable : ℕ → Text → ℕ → Target → Bool
evictable bucket tag now r = active_other bucket tag r && lease_over now r.leased_until

abbrev pub evict_row : ℕ → Target → Target
evict_row now r = record r {
  is_active = false;
  last_crawl_status = some sampled_out;
  updated_at = now;
}

-- ORDER BY random() LIMIT 1
unfoldable pub victim : ℕ → ℕ → Text → ℕ → List Target → Option Target
victim pick bucket tag now rows =
    let candidates = keep_where (evictable bucket tag now) rows in
    get_elem? candidates (pick % length candidates)

abbrev pub evict_victim : ℕ → List Target → Option Target → List Target
evict_victim now rows none = rows
evict_victim now rows (some v) = update_where (has_tag v.player_tag) (evict_row now) rows

unfoldable pub evict : ℕ → ℕ → Text → ℕ → List Target → List Target
evict pick bucket tag now rows = evict_victim now rows (victim pick bucket tag now rows)

-- Step 3: the decision for a full bucket, after the player was counted among `seen`.
unfoldable pub sample_full :
    (ℕ → ℕ → Bool) → ℕ → ℕ → Text → ℕ → ℕ → ℕ → List Target → Bool × List Target
sample_full below pick bucket tag cap seen now rows =
    if below cap seen
    then (
      false,
      (if leb cap (count_where (active_other bucket tag) rows)
          then evict pick bucket tag now rows
          else rows),
    )
    else (true, rows)

unfoldable pub sample : (ℕ → ℕ → Bool) → ℕ → ℕ → Text → ℤ → ℕ → List Target → Bool × List Target
sample below pick bucket tag cap now rows =
    let seen = count_where (in_bucket bucket) rows in
    if leb_ℤ cap (pos 0) || leb_ℤ (pos seen) cap
    then (false, rows)
    else sample_full below pick bucket tag (pos_part cap) seen now rows

-- The transaction at the time NOW(), before its COMMIT.
unfoldable pub sample_rows :
    (ℕ → ℕ → Bool) → ℕ → Text → ℕ → ℕ → ℤ → ℤ → ℕ → List Target → Bool × List Target
sample_rows below pick tag bucket priority trophies cap now rows =
    sample below pick bucket tag cap now (classify tag bucket priority trophies now rows)

-- The two results of the function: sampledOut, and whether err is not nil.
pub record Sampled : Type 0 where
  pub out : Bool
  pub failed : Bool

-- An error before the COMMIT returns (false, err). The COMMIT's own error is returned beside the
-- decision: `return true, tx.Commit(ctx)`.
unfoldable pub classify_and_sample_target : Env → Text → ℕ → ℕ → ℤ → ℤ → M Sampled
classify_and_sample_target e tag bucket priority trophies cap w =
    let t = w.step in
    let before = e.others t w.db in
    let (out, rows) =
      sample_rows (e.below t) (e.pick t) tag bucket priority trophies cap (e.db_now t)
        before.targets in
    if e.fails t
    then (ok (record { out = false; failed = true }), record w { step = suc t; db = before })
    else if e.commit_fails t
    then (ok (record { out = out; failed = true }), record w { step = suc t; db = before })
    else (
      ok (record { out = out; failed = false }),
      record w { step = suc t; db = record before { targets = rows } },
    )

abbrev pub profile_row : ℕ → ℤ → ℕ → Target → Target
profile_row priority trophies now r = record r {
  priority = priority;
  trophy_estimate = some trophies;
  updated_at = now;
}

unfoldable pub update_crawl_profile : Env → Text → ℕ → ℤ → M (Unit {0})
update_crawl_profile e tag priority trophies = exec e λ now db. (
  ok tt,
  record db { targets = update_where (has_tag tag) (profile_row priority trophies now) db.targets },
)

unfoldable pub active_target_count : Env → M ℕ
active_target_count e = exec e (λ now db. (ok (count_where (λ r. r.is_active) db.targets), db))
