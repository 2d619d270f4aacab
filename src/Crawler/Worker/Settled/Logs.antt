-- ===== src/Crawler/Worker/Settled/Logs.antt =====
-- crawler/worker.go: the battle log of a crawl, if what it stores does not matter.
use brawl_stars_guide.Base.{
  ℕ, Bool, true, ◌≡◌, refl, List, [], ◌∷◌, Error, Result, ok, err, Bool-cases, inl, inr,
}
use brawl_stars_guide.Apiclient.Types.{PlayerResponse, BattleLogResponse, BattleEntry}
use brawl_stars_guide.Storage.Schema.{shutdown}
use brawl_stars_guide.Storage.Statement.{World}
use brawl_stars_guide.Storage.Crawl.{ClaimResult}
use brawl_stars_guide.Ingestion.Discovery.{BattleIngestor, new_battle_ingestor}
use brawl_stars_guide.Ingestion.Battle.Effects.{ingest_battle-keeps}
use brawl_stars_guide.Crawler.Worker.{
  Worker, RunOutcome, outcome_of, finalize_transient_error, finalize_api_error, ingest_failed,
  finish, ingest_entries, ingest_log, fetch_profile,
}
use brawl_stars_guide.Crawler.Worker.Sparing.{spares}
use brawl_stars_guide.Domain.{priority_for_trophies}
use brawl_stars_guide.Crawler.Worker.Settled.{Posts, handle-Posts, CrawlOps, ceiling-keeps}
use brawl_stars_guide.Crawler.Worker.Settled.Stages.{stages-Posts}

-- What has to be shown of the ways in which a crawl ends, if what it stores does not matter.
pub record FinishEnds (P : World → Type 0) (Post : Result RunOutcome → World → Type 0)
    (Due : ℕ → Type 0) (k : Worker) (claim : ClaimResult) : Type 0 where
  pub sparing : (r : Result RunOutcome) (w : World) → spares r ≡ true → P w → Post r w
  pub finishes :
      (out : Bool) (priority new found : ℕ)
      → Due priority
      → Posts P Post (finish k claim out priority new found)
  pub transient : Posts P Post (finalize_transient_error k claim)
  pub refused : (x : Error) → Posts P Post (finalize_api_error k claim x)
  pub claimed_due : Due claim.priority
  pub fetched_due :
      (n : ℕ) (profile : PlayerResponse)
      → k.outside.player n claim.player_tag ≡ ok profile
      → Due (priority_for_trophies profile.trophies)

module _ (P : World → Type 0) (Post : Result RunOutcome → World → Type 0) (Due : ℕ → Type 0)
    (k : Worker) (claim : ClaimResult) (o : CrawlOps P k claim)
    (e : FinishEnds P Post Due k claim) where
  ingest_failed-Posts : Posts P Post (ingest_failed k claim)
  unfolding ingest_failed
  ingest_failed-Posts w p = elim (Bool-cases (k.outside.cancelled w.step)) [
    | inl c ↦ rw c (e.sparing (ok (outcome_of claim.player_tag shutdown)) w refl p)
    | inr c ↦ rw c (e.transient w p)
  ]

  entries-Posts :
      (out : Bool) (priority : ℕ) (b : BattleIngestor) (entries : List BattleEntry) (new found : ℕ)
      → Due priority
      → Posts P Post (ingest_entries k claim out priority b entries new found)
  unfolding ingest_entries
  entries-Posts out priority b [] new found due = e.finishes out priority new found due
  entries-Posts out priority b (entry ∷ entries) new found due =
      handle-Posts P Post _ _ _ (ingest_battle-keeps P k.runtime k.env b (o.battle b) entry)
        (λ x. ingest_failed-Posts) (λ r. entries-Posts out priority b entries _ _ due)

  log-Posts :
      (log : BattleLogResponse) (out : Bool) (priority : ℕ)
      → Due priority
      → Posts P Post (ingest_log k claim log out priority)
  unfolding ingest_log new_battle_ingestor
  log-Posts log out priority due =
      handle-Posts P Post _ _ _ (ceiling-keeps P k claim o) (λ x w p. e.sparing (err x) w refl p)
        λ cfg.
          handle-Posts P Post _ _ _ (λ w p. o.counter w 0 p) (λ x w p. e.sparing (err x) w refl p)
            (λ b. entries-Posts out priority b log.items 0 0 due)

  -- Every stage after the claim.
  pub fetch_profile-Posts : Posts P Post (fetch_profile k claim)
  fetch_profile-Posts = stages-Posts P Post Due k claim o (record {
    sparing = e.sparing;
    logs = λ n log out priority got due. log-Posts log out priority due;
    transient = e.transient;
    refused = e.refused;
    claimed_due = e.claimed_due;
    fetched_due = e.fetched_due;
  })
