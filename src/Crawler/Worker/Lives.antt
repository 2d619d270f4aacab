-- ===== src/Crawler/Worker/Lives.antt =====
-- crawler/worker.go: RunOnce as a history of the queue, and the lives of the players over it.
use brawl_stars_guide.Base.{ℕ, refl, Text}
use brawl_stars_guide.Storage.Schema.{Db}
use brawl_stars_guide.Storage.Statement.{Env, World}
use brawl_stars_guide.Storage.Statement.Keeps.{Keeps, exec-keeps_db}
use brawl_stars_guide.Storage.Crawl.{
  FinalizeParams, claim_next_target, claim_statement, finalize_crawl,
}
use brawl_stars_guide.Storage.Crawl.History.{
  QueueHistory, begins, more, claims, finalizes, samples, profiles, enqueues, elsewhere,
}
use brawl_stars_guide.Storage.Crawl.Rows.{HasOneRow}
use brawl_stars_guide.Storage.Crawl.Refinement.{Follows, queue_history-Follows}
use brawl_stars_guide.Crawler.Worker.{Worker, run_once}
use brawl_stars_guide.Crawler.Worker.Whole.{run_once-keeps}
use brawl_stars_guide.Crawler.Worker.Settled.Rules.{QueueRules, crawl_ops}

joined : {a b c : Db} → QueueHistory a b → QueueHistory b c → QueueHistory a c
joined g begins = g
joined g (more h s) = more (joined g h) s

module _ (e : Env) (others : (n : ℕ) (d : Db) → QueueHistory d (e.others n d)) (first : Db) where
  history_rules : (tag : Text) → QueueRules e tag (QueueHistory first)
  history_rules tag = record {
    others = λ n d h. joined h (others n d);
    elsewhere = λ d d' same h. more h (elsewhere same);
    enqueues = λ new source via now d h. more h (enqueues new source via now refl);
    samples = λ below pick bucket priority trophies cap now d h.
        more h (samples below pick tag bucket priority trophies cap now refl);
    profiles = λ priority trophies now d h. more h (profiles tag priority trophies now refl);
  }

  claim-history : Keeps (λ w. QueueHistory first w.db) (claim_next_target e)
  unfolding claim_next_target
  claim-history w =
      exec-keeps_db (QueueHistory first) e (claim_statement (e.locked w.step))
        (λ n d h. joined h (others n d)) (λ now d h. more h (claims (e.locked w.step) now refl)) w

  finalize-history :
      (p : FinalizeParams) → Keeps (λ w. QueueHistory first w.db) (finalize_crawl e p)
  unfolding finalize_crawl
  finalize-history p =
      exec-keeps_db (QueueHistory first) e _ (λ n d h. joined h (others n d))
        (λ now d h. more h (finalizes p now refl))

-- What RunOnce and the others do to the queue meanwhile, one statement after the other.
run_once-history :
    (k : Worker) (w : World)
    → ((n : ℕ) (d : Db) → QueueHistory d (k.env.others n d))
    → QueueHistory w.db (run_once k w).1.db
run_once-history k w others =
    run_once-keeps (λ v. QueueHistory w.db v.db) k (claim-history k.env others w.db)
      (λ claim.
        crawl_ops k claim (QueueHistory w.db) (history_rules k.env others w.db claim.player_tag))
      (finalize-history k.env others w.db) w begins

-- Over a whole RunOnce, whatever the API, the limiter, the database and the cancellations do, and
-- while others commit any statements on the queue in between, the queue goes through a sequence of
-- statements each of which takes every player along an edge of the abstract life, and it keeps one
-- row for the player at most.
pub run_once-Follows :
    (k : Worker) (w : World) (tag : Text)
    → ((n : ℕ) (d : Db) → QueueHistory d (k.env.others n d))
    → HasOneRow tag w.db.targets
    → (h : QueueHistory w.db (run_once k w).1.db) × Follows tag h
      × HasOneRow tag (run_once k w).1.db.targets
run_once-Follows k w tag others one =
    let h = run_once-history k w others in
    let (edges, still) = queue_history-Follows tag h one in (h, edges, still)
