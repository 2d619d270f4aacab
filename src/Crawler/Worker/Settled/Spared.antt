-- ===== src/Crawler/Worker/Settled/Spared.antt =====
-- crawler/worker.go: the state of the claimed player's row over RunOnce.
use brawl_stars_guide.Base.{ℕ, true, ◌≡◌, some, ok}
use brawl_stars_guide.Storage.Schema.{Db}
use brawl_stars_guide.Storage.Statement.{World, handle}
use brawl_stars_guide.Storage.Crawl.{ClaimResult, claim_next_target}
use brawl_stars_guide.Crawler.Worker.{Worker, run_once, claimed}
use brawl_stars_guide.Crawler.Worker.Sparing.{
  spares, finish-result, transient-result, api_error-result, api_status-not_spared,
}
use brawl_stars_guide.Crawler.Worker.Settled.Logs.{FinishEnds, fetch_profile-Posts}
use brawl_stars_guide.Crawler.Worker.Settled.Rows.{RetryState, retry_state}
use brawl_stars_guide.Crawler.Worker.Settled.Rules.{crawl_ops}
use brawl_stars_guide.Crawler.Worker.Settled.Held.{Held, held_rules}

module _ (k : Worker) (claim : ClaimResult) (state : RetryState) where
  -- The endings that finalize do not spare the player.
  endings :
      FinishEnds
        (Held claim.player_tag state)
        (λ r u. spares r ≡ true → Held claim.player_tag state u)
        (λ n. Unit)
        k
        claim
  endings = record {
    sparing = λ r w s p t. p;
    finishes = λ out priority new found due w p s.
        absurd (cc (finish-result k claim out priority new found w));
    transient = λ w p s. absurd (cc (transient-result k claim w));
    refused = λ x w p s.
        absurd (cc (api_error-result k claim x w, api_status-not_spared x claim.player_tag));
    claimed_due = tt;
    fetched_due = λ n profile got. tt;
  }

  -- If RunOnce, after its claim, ends with a shutdown, a lost lease or an error (a global halt for
  -- the status 401 or 403 among them), the claimed player's row has the failures, the next time, the
  -- count of crawls, the activity, the lease and the generation that it had after the claim, so that
  -- its lease runs out by itself. The row is assumed to be left alone by others.
  pub run_once-spares :
      (w v : World)
      → claim_next_target k.env w ≡ (ok (some claim), v)
      → retry_state claim.player_tag v.db ≡ some state
      → ((n : ℕ) (d : Db)
          → retry_state claim.player_tag d ≡ some state
          → retry_state claim.player_tag (k.env.others n d) ≡ some state)
      → spares (run_once k w).0 ≡ true
      → retry_state claim.player_tag (run_once k w).1.db ≡ some state
  unfolding run_once handle claimed
  run_once-spares w v got held left s =
      rw (got, run_once, handle)
        (fetch_profile-Posts (Held claim.player_tag state)
          (λ r u. spares r ≡ true → Held claim.player_tag state u) (λ n. Unit) k claim
          (crawl_ops k claim _ (held_rules claim.player_tag state k.env left)) endings v held
          (rw (got, run_once, handle) at s))
