-- ===== src/Crawler/Worker/Settled.antt =====
-- crawler/worker.go: from what the statements keep and what the endings leave to what a crawl leaves.
pub mod Stages
pub mod Logs
pub mod Rows
pub mod Rules
pub mod Held
pub mod Spared
pub mod Leased
pub mod Recorded
pub mod Lasts
pub mod Complete
use brawl_stars_guide.Base.{
  ℕ, suc, Bool, true, false, ◌||◌, ◌≡◌, refl, Text, List, [], ◌∷◌, Option, none, some, Error,
  global_halt, Result, ok, err, if◌then◌else◌, Bool-cases, inl, inr, ltb_ℤ, pos, length, ℤ, arith,
}
use brawl_stars_guide.Apiclient.Types.{PlayerResponse, BattleLogResponse, BattleEntry}
use brawl_stars_guide.Apiclient.Client.{
  is_not_found, is_too_many_requests, is_unauthorized, is_forbidden,
}
use brawl_stars_guide.Storage.Schema.{
  Db, Status, success, sampled_out, not_found, rate_limited, error, empty, ownership_lost, shutdown,
  unset,
}
use brawl_stars_guide.Storage.Statement.{Env, World, M, branch, handle, pure, return, ◌>>=◌, ◌>>◌}
use brawl_stars_guide.Storage.Statement.Keeps.{Keeps, handle-keeps}
use brawl_stars_guide.Storage.Crawl.{ClaimResult, ownership_valid, finalize_crawl}
use brawl_stars_guide.Storage.Sampling.{
  Sampled, classify_and_sample_target, update_crawl_profile, active_target_count,
}
use brawl_stars_guide.Ingestion.Discovery.{BattleIngestor, new_battle_ingestor}
use brawl_stars_guide.Ingestion.Battle.{ingest_battle}
use brawl_stars_guide.Ingestion.Battle.Effects.{BattleOps, ingest_battle-keeps}
use brawl_stars_guide.Ingestion.Player.{ingest_player}
use brawl_stars_guide.Ingestion.Player.Effects.{PlayerOps, ingest_player-keeps}
use brawl_stars_guide.Crawler.Worker.{
  Worker, RunOutcome, outcome_of, ends, call, unless_cancelled, finalize, finalize_transient_error,
  finalize_api_error, api_failed, ingest_failed, finish, ingest_entries, check_ceiling, ingest_log,
  classified, classify_profile, ingest_profile, check_ownership, fetch_log, fetch_profile,
}
use brawl_stars_guide.Crawler.Worker.Sparing.{spares}
use brawl_stars_guide.Domain.{priority_for_trophies}

-- What a call leaves, by its result, after a world with P.
abbrev pub Posts : (World → Type 0) → (Result RunOutcome → World → Type 0) → M RunOutcome → Type 0
Posts P Post m = (w : World) → P w → Post (m w).0 (m w).1

branch-Posts :
    {A : Type 0} (P : World → Type 0) (Post : Result RunOutcome → World → Type 0)
    (h : Error → M RunOutcome) (k : A → M RunOutcome) (r : Result A × World)
    → ((x : Error) → Posts P Post (h x))
    → ((a : A) → r.0 ≡ ok a → Posts P Post (k a))
    → P r.1
    → Post (branch h k r).0 (branch h k r).1
branch-Posts P Post h k (ok a, w) ph pk p = pk a refl w p
branch-Posts P Post h k (err x, w) ph pk p = ph x w p

module _ (P : World → Type 0) (Post : Result RunOutcome → World → Type 0) where
  -- What follows a value may use a property of the value.
  pub handle-Posts_of :
      {A : Type 0} (R : A → Type 0) (m : M A) (h : Error → M RunOutcome) (k : A → M RunOutcome)
      → Keeps P m
      → ((w : World) (a : A) → (m w).0 ≡ ok a → R a)
      → ((x : Error) → Posts P Post (h x))
      → ((a : A) → R a → Posts P Post (k a))
      → Posts P Post (handle m h k)
  unfolding handle
  handle-Posts_of R m h k km values ph pk w p =
      branch-Posts P Post h k (m w) ph (λ a e. pk a (values w a e)) (km w p)

  pub handle-Posts :
      {A : Type 0} (m : M A) (h : Error → M RunOutcome) (k : A → M RunOutcome)
      → Keeps P m
      → ((x : Error) → Posts P Post (h x))
      → ((a : A) → Posts P Post (k a))
      → Posts P Post (handle m h k)
  handle-Posts m h k km ph pk = handle-Posts_of (λ a. Unit) m h k km (λ w a e. tt) ph (λ a u. pk a)

  pub if-Posts :
      (b : Bool) (m n : M RunOutcome)
      → Posts P Post m
      → Posts P Post n
      → Posts P Post (if b then m else n)
  if-Posts true m n pm pn = pm
  if-Posts false m n pm pn = pn

-- The statements that a crawl makes before it finalizes, each keeping P.
pub record CrawlOps (P : World → Type 0) (k : Worker) (claim : ClaimResult) : Type 0 where
  pub player : PlayerOps P k.env
  pub battle : (b : BattleIngestor) → BattleOps P k.runtime k.env b
  pub owner : Keeps P (ownership_valid k.env claim.player_tag claim.generation)
  pub active : Keeps P (active_target_count k.env)
  pub profile :
      (priority : ℕ) (trophies : ℤ)
      → Keeps P (update_crawl_profile k.env claim.player_tag priority trophies)
  pub sample :
      (bucket priority : ℕ) (trophies cap : ℤ)
      → Keeps P (classify_and_sample_target k.env claim.player_tag bucket priority trophies cap)
  pub step : (w : World) (n : ℕ) → P w → P (record w { step = n })
  pub counter : (w : World) (n : ℕ) → P w → P (record w { discoveries = n })

-- What has to be shown of the ways in which a crawl ends: without an effect on the player, with a
-- finalization after a failure, or from the battle log on. `Due` holds of the priorities that a
-- finished crawl may use.
pub record CrawlEnds (P : World → Type 0) (Post : Result RunOutcome → World → Type 0)
    (Due : ℕ → Type 0) (k : Worker) (claim : ClaimResult) : Type 0 where
  pub sparing : (r : Result RunOutcome) (w : World) → spares r ≡ true → P w → Post r w
  pub logs :
      (n : ℕ) (log : BattleLogResponse) (out : Bool) (priority : ℕ)
      → k.outside.battle_log n claim.player_tag ≡ ok log
      → Due priority
      → Posts P Post (ingest_log k claim log out priority)
  pub transient : Posts P Post (finalize_transient_error k claim)
  pub refused : (x : Error) → Posts P Post (finalize_api_error k claim x)
  pub claimed_due : Due claim.priority
  pub fetched_due :
      (n : ℕ) (profile : PlayerResponse)
      → k.outside.player n claim.player_tag ≡ ok profile
      → Due (priority_for_trophies profile.trophies)

pub call-value :
    {A : Type 0} (f : ℕ → Result A) (w : World) (a : A) → (call f w).0 ≡ ok a → f w.step ≡ ok a
unfolding call
call-value f w a h = h

module _ (P : World → Type 0) (k : Worker) (claim : ClaimResult) (o : CrawlOps P k claim) where
  pub ceiling-keeps : Keeps P (check_ceiling k.env k.cfg)
  unfolding check_ceiling
  ceiling-keeps w p = elim (Bool-cases (ltb_ℤ (pos 0) k.cfg.max_active_targets)) [
    | inl on ↦ rw (on, check_ceiling) (handle-keeps P _ _ _ o.active (λ x v q. q) (λ n v q. q) w p)
    | inr off ↦ rw (off, check_ceiling) p
  ]

  pub call-keeps : {A : Type 0} (f : ℕ → Result A) → Keeps P (call f)
  unfolding call
  call-keeps f w p = o.step w _ p
