-- ===== src/Crawler/Worker/Whole.antt =====
-- crawler/worker.go: from what the statements keep to what RunOnce keeps, on every path.
use brawl_stars_guide.Base.{
  ℕ, Bool, Text, [], Option, none, some, Error, Result, ok, Bool-cases, inl, inr,
}
use brawl_stars_guide.Apiclient.Client.{is_not_found, is_too_many_requests}
use brawl_stars_guide.Storage.Schema.{Status, unset}
use brawl_stars_guide.Storage.Statement.{World, M, pure, return, ◌>>◌}
use brawl_stars_guide.Storage.Statement.Keeps.{Keeps, handle-keeps, bind-keeps}
use brawl_stars_guide.Storage.Crawl.{ClaimResult, FinalizeParams, claim_next_target, finalize_crawl}
use brawl_stars_guide.Crawler.Worker.{
  Worker, RunOutcome, ends_with, unless_cancelled, finalize, finalize_transient_error,
  finalize_api_error, finish, fetch_profile, claimed, run_once,
}
use brawl_stars_guide.Crawler.Worker.Settled.{CrawlOps}
use brawl_stars_guide.Crawler.Worker.Settled.Logs.{fetch_profile-Posts}

pub unless-Keeps :
    (P : World → Type 0) (k : Worker) (tag : Text) (m : M RunOutcome)
    → Keeps P m
    → Keeps P (unless_cancelled k.outside tag m)
unless-Keeps P k tag m h w p = elim (Bool-cases (k.outside.cancelled w.step)) [
  | inl c ↦ rw c p
  | inr c ↦ rw c (h w p)
]

module _ (P : World → Type 0) (k : Worker) (claim : ClaimResult)
    (finalizes : (p : FinalizeParams) → Keeps P (finalize_crawl k.env p)) where
  still : {A : Type 0} (r : Result A) → Keeps P (pure r)
  still r w p = p

  finalize-Keeps :
      (status : Status) (next_at failures : ℕ) (active : Bool)
      → Keeps P (finalize k.env claim status next_at failures active)
  unfolding finalize
  finalize-Keeps status next_at failures active =
      handle-keeps P _ _ _ (finalizes _) (λ x. still (ok tt)) (λ done. still (ok tt))

  ends-Keeps :
      (status : Status) (next_at failures : ℕ) (active : Bool) (r : RunOutcome)
      → Keeps P (finalize k.env claim status next_at failures active >> return r)
  ends-Keeps status next_at failures active r =
      bind-keeps P _ _ (finalize-Keeps status next_at failures active) (λ u. still (ok r))

  pub transient-Keeps : Keeps P (finalize_transient_error k claim)
  unfolding finalize_transient_error
  transient-Keeps w p = ends-Keeps _ _ _ _ _ w p

  api_error-Keeps : (x : Error) → Keeps P (finalize_api_error k claim x)
  unfolding finalize_api_error
  api_error-Keeps x w p = elim (Bool-cases (is_not_found x)) [
    | inl gone ↦ rw (gone, finalize_api_error) (ends-Keeps _ _ _ _ _ w p)
    | inr found ↦ elim (Bool-cases (is_too_many_requests x)) [
      | inl busy ↦ rw (found, finalize_api_error) (rw (busy) (ends-Keeps _ _ _ _ _ w p))
      | inr calm ↦ rw (found, finalize_api_error) (rw (calm) (transient-Keeps w p))
    ]
  ]

  pub finish-Keeps :
      (out : Bool) (priority new found : ℕ) → Keeps P (finish k claim out priority new found)
  unfolding finish
  finish-Keeps out priority new found w p = ends-Keeps _ _ _ _ _ w p

  pub fetch_profile-Keeps : CrawlOps P k claim → Keeps P (fetch_profile k claim)
  fetch_profile-Keeps o =
      fetch_profile-Posts P (λ r. P) (λ n. Unit) k claim o
        (record {
          sparing = λ r w s p. p;
          finishes = λ out priority new found due. finish-Keeps out priority new found;
          transient = transient-Keeps;
          refused = api_error-Keeps;
          claimed_due = tt;
          fetched_due = λ n profile got. tt;
        })

-- RunOnce keeps what its statements keep.
pub run_once-keeps :
    (P : World → Type 0) (k : Worker)
    → Keeps P (claim_next_target k.env)
    → ((claim : ClaimResult) → CrawlOps P k claim)
    → ((p : FinalizeParams) → Keeps P (finalize_crawl k.env p))
    → Keeps P (run_once k)
unfolding run_once claimed
run_once-keeps P k claims ops finalizes =
    handle-keeps P _ _ _ claims (λ x. unless-Keeps P k [] (ends_with [] unset x) (λ w p. p)) after
  where
    after : (c : Option ClaimResult) → Keeps P (claimed k c)
    after none = λ w p. p
    after (some claim) = fetch_profile-Keeps P k claim finalizes (ops claim)
