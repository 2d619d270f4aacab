-- ===== src/Crawler/Worker/Settled/Stages.antt =====
-- crawler/worker.go: the stages of RunOnce from the limiter to the battle log.
use brawl_stars_guide.Base.{
  ℕ, true, false, ◌||◌, ◌≡◌, refl, [], some, Error, global_halt, Result, ok, err, Bool-cases, inl,
  inr,
}
use brawl_stars_guide.Apiclient.Types.{PlayerResponse, BattleLogResponse}
use brawl_stars_guide.Apiclient.Client.{is_unauthorized, is_forbidden}
use brawl_stars_guide.Storage.Schema.{shutdown, unset}
use brawl_stars_guide.Storage.Statement.{World, M, pure}
use brawl_stars_guide.Storage.Crawl.{ClaimResult}
use brawl_stars_guide.Storage.Sampling.{Sampled}
use brawl_stars_guide.Ingestion.Player.Effects.{ingest_player-keeps}
use brawl_stars_guide.Crawler.Worker.{
  Worker, RunOutcome, outcome_of, unless_cancelled, api_failed, ingest_failed, classified,
  classify_profile, ingest_profile, check_ownership, fetch_log, fetch_profile,
}
use brawl_stars_guide.Crawler.Worker.Sparing.{spares}
use brawl_stars_guide.Domain.{priority_for_trophies}
use brawl_stars_guide.Crawler.Worker.Settled.{
  Posts, handle-Posts_of, handle-Posts, if-Posts, CrawlOps, CrawlEnds, call-value, call-keeps,
}

module _ (P : World → Type 0) (Post : Result RunOutcome → World → Type 0) (Due : ℕ → Type 0)
    (k : Worker) (claim : ClaimResult) (o : CrawlOps P k claim)
    (e : CrawlEnds P Post Due k claim) where
  spared_end : (r : Result RunOutcome) → spares r ≡ true → Posts P Post (pure r)
  spared_end r s w p = e.sparing r w s p

  unless-Posts :
      (m : M RunOutcome)
      → Posts P Post m
      → Posts P Post (unless_cancelled k.outside claim.player_tag m)
  unless-Posts m pm w p = elim (Bool-cases (k.outside.cancelled w.step)) [
    | inl c ↦ rw c (e.sparing (ok (outcome_of claim.player_tag shutdown)) w refl p)
    | inr c ↦ rw c (pm w p)
  ]

  api_failed-Posts : (x : Error) → Posts P Post (api_failed k claim x)
  unfolding api_failed
  api_failed-Posts x w p = elim (Bool-cases (is_unauthorized x || is_forbidden x)) [
    | inl key ↦
        rw (key, api_failed)
          (e.sparing (ok (record (outcome_of [] unset) { error = some global_halt })) w refl p)
    | inr own ↦ rw (own, api_failed) (unless-Posts _ (e.refused x) w p)
  ]

  ingest_failed-Posts : Posts P Post (ingest_failed k claim)
  unfolding ingest_failed
  ingest_failed-Posts = unless-Posts _ e.transient

  classified-Posts :
      (n : ℕ) (log : BattleLogResponse) (priority : ℕ) (r : Sampled)
      → k.outside.battle_log n claim.player_tag ≡ ok log
      → Due priority
      → Posts P Post (classified k claim log priority r)
  unfolding classified
  classified-Posts n log priority r got due =
      if-Posts P Post r.failed _ _
        (unless-Posts _ (e.logs n log r.out claim.priority got e.claimed_due))
        (e.logs n log r.out priority got due)

  profile-Posts :
      (n : ℕ) (profile : PlayerResponse) (log : BattleLogResponse)
      → k.outside.battle_log n claim.player_tag ≡ ok log
      → Due (priority_for_trophies profile.trophies)
      → Posts P Post (classify_profile k claim profile log)
  unfolding classify_profile
  profile-Posts n profile log got due =
      if-Posts P Post claim.is_classified _ _
        (handle-Posts P Post _ _ _ (o.profile _ _)
          (λ x. unless-Posts _ (e.logs n log false claim.priority got e.claimed_due))
          (λ u. e.logs n log false _ got due))
        (handle-Posts P Post _ _ _ (o.sample _ _ _ _) (λ x. spared_end (err x) refl)
          (λ r. classified-Posts n log _ r got due))

  ingest-Posts :
      (n : ℕ) (profile : PlayerResponse) (log : BattleLogResponse)
      → k.outside.battle_log n claim.player_tag ≡ ok log
      → Due (priority_for_trophies profile.trophies)
      → Posts P Post (ingest_profile k claim profile log)
  unfolding ingest_profile
  ingest-Posts n profile log got due =
      handle-Posts P Post _ _ _ (ingest_player-keeps P k.runtime k.env o.player profile)
        (λ x. ingest_failed-Posts) (λ id. profile-Posts n profile log got due)

  ownership-Posts :
      (n : ℕ) (profile : PlayerResponse) (log : BattleLogResponse)
      → k.outside.battle_log n claim.player_tag ≡ ok log
      → Due (priority_for_trophies profile.trophies)
      → Posts P Post (check_ownership k claim profile log)
  unfolding check_ownership
  ownership-Posts n profile log got due =
      handle-Posts P Post _ _ _ o.owner (λ x. unless-Posts _ (spared_end _ refl))
        λ owned. if-Posts P Post owned _ _ (ingest-Posts n profile log got due) (spared_end _ refl)

  fetch_log-Posts :
      (profile : PlayerResponse)
      → Due (priority_for_trophies profile.trophies)
      → Posts P Post (fetch_log k claim profile)
  unfolding fetch_log
  fetch_log-Posts profile due =
      handle-Posts P Post _ _ _ (call-keeps P k claim o _) (λ x. spared_end _ refl)
        λ u.
          handle-Posts_of P Post
            (λ log. (n : ℕ) × (k.outside.battle_log n claim.player_tag ≡ ok log)) _ _ _
            (call-keeps P k claim o _) (λ w log got. (w.step, call-value _ w log got))
            api_failed-Posts (λ log (n, got). ownership-Posts n profile log got due)

  -- Every stage after the claim.
  pub stages-Posts : Posts P Post (fetch_profile k claim)
  unfolding fetch_profile
  stages-Posts =
      handle-Posts P Post _ _ _ (call-keeps P k claim o _) (λ x. spared_end _ refl)
        λ u.
          handle-Posts_of P Post (λ profile. Due (priority_for_trophies profile.trophies)) _ _ _
            (call-keeps P k claim o _)
            (λ w profile got. e.fetched_due w.step profile (call-value _ w profile got))
            api_failed-Posts fetch_log-Posts
