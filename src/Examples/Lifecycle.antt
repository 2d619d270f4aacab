-- ===== src/Examples/Lifecycle.antt =====
-- A crawl of a player and the claims of others at concrete inputs.
use brawl_stars_guide.Base.{
  ℕ, ◌≡◌, ◌⊎◌, refl, true, false, codes, [], ◌∷◌, some, none, arith, ok, err, api_error, find_where,
  update_where, least_where, count_where, text_eq,
}
use brawl_stars_guide.Apiclient.Client.{
  is_unauthorized, is_forbidden, is_not_found, is_too_many_requests,
}
use brawl_stars_guide.Storage.Schema.{Target, Db, error, rate_limited}
use brawl_stars_guide.Storage.Statement.{World, exec, handle}
use brawl_stars_guide.Storage.Crawl.{
  FinalizeParams, claimable, comes_before, next_target, claim_statement, claim_next_target,
  finalize_crawl, finalize_statement,
}
use brawl_stars_guide.Storage.Crawl.History.{
  QueueHistory, begins, more, claims, claim_count, Standing,
}
use brawl_stars_guide.Storage.Crawl.Stages.{stage, queued}
use brawl_stars_guide.Storage.Crawl.Rows.{HasOneRow}
use brawl_stars_guide.Storage.Crawl.Refinement.{Follows, queue_history-Follows}
use brawl_stars_guide.Storage.Crawl.Fencing.{finalize_fenced}
use brawl_stars_guide.Crawler.Worker.{
  Worker, run_once, claimed, fetch_profile, call, api_failed, finalize_api_error, finalize,
  outcome_of,
}
use brawl_stars_guide.Crawler.Worker.Settled.Rows.{RetryState}
use brawl_stars_guide.Crawler.Worker.Settled.Recorded.{Recorded, run_once_records, recorded_state}
use brawl_stars_guide.Crawler.Worker.Lives.{run_once-Follows}
use brawl_stars_guide.Examples.Data.{
  alice, bob, alice_claim, refused, db_of, two_targets, first_step,
}

-- An API that answers 429.
abbrev busy : Worker
busy = record refused {
  outside = record (refused.outside) { player = λ t tag. err (api_error 429 (codes "/players")) };
}

-- Alice's state while she is leased.
abbrev leased_state : RetryState
leased_state = record {
  consecutive_failures = 2;
  next_crawl_at = 5;
  crawl_count = 0;
  is_active = true;
  leased_until = some 600000001000;
  crawl_generation = 5;
}

abbrev claimed_alice : Target
claimed_alice = record alice {
  crawl_generation = 5;
  leased_until = some 600000001000;
  updated_at = 1000;
}

abbrev pub after_claim : World
after_claim = record { step = 1; db = db_of (bob ∷ claimed_alice ∷ []); discoveries = 0 }

run_once_records_example :
    Recorded busy alice_claim leased_state (run_once busy first_step).0 (run_once busy first_step).1
unfolding claim_next_target exec claim_statement next_target least_where claimable comes_before
    find_where update_where text_eq
run_once_records_example =
    run_once_records busy alice_claim leased_state first_step after_claim refl refl (λ n d h. h)

busy_crawl_test : (run_once busy first_step).0 ≡ ok (outcome_of (codes "ALICE") rate_limited)
unfolding run_once claimed fetch_profile call handle claim_next_target exec claim_statement
    next_target least_where claimable comes_before find_where update_where text_eq api_failed
    is_unauthorized is_forbidden finalize_api_error is_not_found is_too_many_requests finalize
    finalize_crawl finalize_statement
busy_crawl_test = refl

recorded_state_test :
    recorded_state busy alice_claim leased_state (ok (outcome_of (codes "ALICE") rate_limited)) 3 1
    ≡ record {
      consecutive_failures = 2;
      next_crawl_at = 300000001000;
      crawl_count = 1;
      is_active = true;
      leased_until = none;
      crawl_generation = 5;
    }
unfolding recorded_state
recorded_state_test = refl

-- The parameters of a worker that claimed Alice before the claim below.
abbrev overtaken : FinalizeParams
overtaken = record {
  player_tag = codes "ALICE";
  generation = 4;
  status = error;
  next_crawl_at = 9;
  consecutive_failures = 3;
  is_active = true;
}

abbrev claimed_again : Db
claimed_again = (claim_statement (λ tag. false) 1000 two_targets).1

unfoldable one_claim : QueueHistory two_targets claimed_again
one_claim = more begins (claims (λ tag. false) 1000 refl)

alice_stands : Standing (codes "ALICE") 4 two_targets.targets
unfolding count_where text_eq
alice_stands = record { one = refl; generation = ((λ h. cc), ((λ h. refl), tt)) }

finalize_fenced_example :
    ((finalize_statement overtaken 3000 claimed_again).0 ≡ ok false)
    × ((claim_count (codes "ALICE") one_claim ≡ 0)
        ⊎ ((finalize_statement overtaken 3000 claimed_again).1 ≡ claimed_again))
unfolding one_claim claim_count next_target least_where claimable comes_before text_eq
finalize_fenced_example =
    finalize_fenced overtaken 3000 one_claim (omega arith) alice_stands (omega arith)

one_row : HasOneRow (codes "ALICE") two_targets.targets
unfolding count_where text_eq
one_row = omega arith

queue_history-Follows_example :
    Follows (codes "ALICE") one_claim × HasOneRow (codes "ALICE") claimed_again.targets
queue_history-Follows_example = queue_history-Follows (codes "ALICE") one_claim one_row

stage_test : stage (codes "ALICE") claimed_again ≡ queued true 5 (some 600000001000) 5
unfolding claim_statement next_target least_where claimable comes_before find_where update_where
    text_eq
stage_test = refl

-- Between the steps of the worker, nobody touches the queue.
nobody : (n : ℕ) (d : Db) → QueueHistory d (busy.env.others n d)
nobody n d = begins

run_once-Follows_example :
    (h : QueueHistory two_targets (run_once busy first_step).1.db) × Follows (codes "ALICE") h
    × HasOneRow (codes "ALICE") (run_once busy first_step).1.db.targets
run_once-Follows_example = run_once-Follows busy first_step (codes "ALICE") nobody one_row
