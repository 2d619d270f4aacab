-- ===== src/Storage/Crawl/History.antt =====
-- storage/queries: histories of the statements on the queue, and the generation of a player's row.
use brawl_stars_guide.Base.{
  ℕ, ◌+◌, ◌≡◌, Bool, true, Text, text_eq, String, Option, none, some, List, ℤ, All, count_where,
  update_where, if◌then◌else◌,
}
use brawl_stars_guide.Storage.Schema.{Db, Target}
use brawl_stars_guide.Storage.Crawl.{
  FinalizeParams, has_tag, finalize_statement, claim_statement, next_target,
}
use brawl_stars_guide.Storage.Players.{enqueue_statement}
use brawl_stars_guide.Storage.Sampling.{sample_rows, profile_row}

-- A committed statement of any process on crawl_targets, or one on other tables.
pub data QueueStep (d e : Db) : Type 0 where
  claims : (locked : Text → Bool) (now : ℕ) → e ≡ (claim_statement locked now d).1 → QueueStep d e
  finalizes : (p : FinalizeParams) (now : ℕ) → e ≡ (finalize_statement p now d).1 → QueueStep d e
  samples :
      (below : ℕ → ℕ → Bool) (pick : ℕ) (tag : Text) (bucket priority : ℕ) (trophies cap : ℤ)
      (now : ℕ)
      → e.targets ≡ (sample_rows below pick tag bucket priority trophies cap now d.targets).1
      → QueueStep d e
  profiles :
      (tag : Text) (priority : ℕ) (trophies : ℤ) (now : ℕ)
      → e.targets ≡ update_where (has_tag tag) (profile_row priority trophies now) d.targets
      → QueueStep d e
  enqueues :
      (tag : Text) (source : String) (via : Text) (now : ℕ)
      → e ≡ (enqueue_statement tag source via now d).1
      → QueueStep d e
  elsewhere : e.targets ≡ d.targets → QueueStep d e

pub data QueueHistory (d : Db) : Db → Type 0 where
  begins : QueueHistory d d
  more : {e f : Db} → QueueHistory d e → QueueStep e f → QueueHistory d f

abbrev pub takes : Text → Option Target → ℕ
takes tag none = 0
takes tag (some r) = if text_eq r.player_tag tag then 1 else 0

abbrev pub step_claims : Text → {d e : Db} → QueueStep d e → ℕ
step_claims tag {d} (claims locked now eq) = takes tag (next_target locked now d.targets)
step_claims tag (finalizes p now eq) = 0
step_claims tag (samples below pick t bucket priority trophies cap now eq) = 0
step_claims tag (profiles t priority trophies now eq) = 0
step_claims tag (enqueues t source via now eq) = 0
step_claims tag (elsewhere eq) = 0

-- How often the history claims the player.
unfoldable pub claim_count : Text → {d e : Db} → QueueHistory d e → ℕ
claim_count tag begins = 0
claim_count tag (more h s) = claim_count tag h + step_claims tag s

abbrev pub HasGeneration : Text → ℕ → List Target → Type 0
HasGeneration tag gen = All (λ r. has_tag tag r ≡ true → r.crawl_generation ≡ gen)

-- The player has one row, and it has the generation.
pub record Standing (tag : Text) (gen : ℕ) (rows : List Target) : Type 0 where
  pub one : count_where (has_tag tag) rows ≡ 1
  pub generation : HasGeneration tag gen rows
