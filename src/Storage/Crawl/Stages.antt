-- ===== src/Storage/Crawl/Stages.antt =====
-- storage/queries: the abstract life of a player in the queue, as a state machine.
use brawl_stars_guide.Base.{
  ℕ, ◌+◌, ◌≤◌, ◌≡◌, Bool, true, false, Text, Option, none, some, find_where, incr32,
}
use brawl_stars_guide.Storage.Schema.{Db, Target}
use brawl_stars_guide.Storage.Crawl.{has_tag, lease_over, lease_time}

-- Not in the queue, or queued: whether active, when due, the end of the lease, and how often claimed.
pub data Stage : Type 0 where
  absent : Stage
  queued : Bool → ℕ → Option ℕ → ℕ → Stage

abbrev pub stage_of : Option Target → Stage
stage_of none = absent
stage_of (some r) = queued r.is_active r.next_crawl_at r.leased_until r.crawl_generation

abbrev pub stage : Text → Db → Stage
stage tag d = stage_of (find_where (has_tag tag) d.targets)

-- A statement, by what the life of a player depends on: a claim at a time, a finalization with a
-- generation, a classification at a time, with its eviction, an enqueue at a time, or any other.
pub data Action : Type 0 where
  claims_at : ℕ → Action
  finalizes_gen : ℕ → Action
  samples_at : ℕ → Action
  enqueues_at : ℕ → Action
  leaves : Action

-- The edges that the queue promises. A player enters active, due at once and never claimed. A claim takes
-- an active player that is due and whose lease is over, and nothing else touches the generation. A
-- finalization needs the generation of the last claim, gives up the lease, and chooses the next time
-- and the activity. An eviction deactivates an active player whose lease is over. Any statement may
-- leave a player as it is, and all but these four always do.
pub data Edge : Action → Stage → Stage → Type 0 where
  enters : (now : ℕ) → Edge (enqueues_at now) absent (queued true now none 0)
  claimed :
      (now due gen : ℕ) (lease : Option ℕ)
      → due ≤ now
      → lease_over now lease ≡ true
      → Edge
          (claims_at now)
          (queued true due lease gen)
          (queued true due (some (now + lease_time)) (incr32 gen))
  finalized :
      (active next_active : Bool) (due next_due gen : ℕ) (lease : Option ℕ)
      → Edge
          (finalizes_gen gen)
          (queued active due lease gen)
          (queued next_active next_due none gen)
  evicted :
      (now due gen : ℕ) (lease : Option ℕ)
      → lease_over now lease ≡ true
      → Edge (samples_at now) (queued true due lease gen) (queued false due lease gen)
  stays : (a : Action) (s : Stage) → Edge a s s
