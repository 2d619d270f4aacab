-- ===== src/Crawler/Worker.antt =====
-- crawler/worker.go: RunOnce. Log lines are left out. The stages below are the sections of RunOnce, each
-- calling the next one.
mod Endings
pub mod Ceiling
pub mod Retry
pub mod Sparing
pub mod Settled
pub mod Whole
pub mod Lives
pub mod Keys
use brawl_stars_guide.Base.{
  ℕ, suc, ◌+◌, ◌*◌, Bool, true, false, ◌||◌, Text, List, [], ◌∷◌, Option, none, some, ℤ, pos, ltb_ℤ,
  leb_ℤ, Error, other, global_halt, Result, ok, err, if◌then◌else◌, length, incr32, signed32,
}
use brawl_stars_guide.Apiclient.Types.{PlayerResponse, BattleLogResponse, BattleEntry}
use brawl_stars_guide.Apiclient.Tags.{normalize_tag}
use brawl_stars_guide.Apiclient.Client.{
  is_not_found, is_too_many_requests, is_unauthorized, is_forbidden,
}
use brawl_stars_guide.Domain.{bucket_for_trophies, priority_for_trophies}
use brawl_stars_guide.Ratelimit.{Outcome, granted, ctx_error}
use brawl_stars_guide.Storage.Schema.{
  Status, success, sampled_out, not_found, rate_limited, error, empty, ownership_lost, shutdown,
  unset,
}
use brawl_stars_guide.Storage.Statement.{Env, World, M, handle, pure, return, ◌>>=◌, ◌>>◌}
use brawl_stars_guide.Storage.Crawl.{
  ClaimResult, FinalizeParams, claim_next_target, finalize_crawl, ownership_valid,
}
use brawl_stars_guide.Storage.Sampling.{
  Sampled, classify_and_sample_target, update_crawl_profile, active_target_count,
}
use brawl_stars_guide.Ingestion.Runtime.{Runtime}
use brawl_stars_guide.Ingestion.Discovery.{
  BattleIngestorConfig, BattleIngestor, new_battle_ingestor,
}
use brawl_stars_guide.Ingestion.Battle.{IngestResult, ingest_battle}
use brawl_stars_guide.Ingestion.Player.{ingest_player}
use brawl_stars_guide.Crawler.Backoff.{hour, base_interval, backoff_duration}
unfoldable pub use Endings.*

-- --- Ingest battle log ---
unfoldable pub ingest_entries :
    Worker → ClaimResult → Bool → ℕ → BattleIngestor → List BattleEntry → ℕ → ℕ → M RunOutcome
ingest_entries k claim out real_priority b [] battles_new discoveries =
    finish k claim out real_priority battles_new discoveries
ingest_entries k claim out real_priority b (entry ∷ entries) battles_new discoveries =
    handle (ingest_battle k.runtime k.env b entry) (λ x. ingest_failed k claim)
      (λ r.
        ingest_entries k claim out real_priority b entries
          (if r.is_new then suc battles_new else battles_new)
          (discoveries + length r.new_discoveries))

abbrev configured : WorkerConfig → BattleIngestorConfig
configured cfg = record { max_discoveries_per_crawl = cfg.max_discoveries_per_crawl }

-- --- Check global active target ceiling before discovery ---
unfoldable pub ceiling_config : WorkerConfig → ℕ → BattleIngestorConfig
ceiling_config cfg active_count =
    if leb_ℤ cfg.max_active_targets (pos active_count)
    then record { max_discoveries_per_crawl = pos 0 }
    else configured cfg

unfoldable pub check_ceiling : Env → WorkerConfig → M BattleIngestorConfig
check_ceiling e cfg =
    if ltb_ℤ (pos 0) cfg.max_active_targets
    then handle (active_target_count e) (λ x. return (configured cfg))
        (λ n. return (ceiling_config cfg n))
    else return (configured cfg)

unfoldable pub ingest_log : Worker → ClaimResult → BattleLogResponse → Bool → ℕ → M RunOutcome
ingest_log k claim log out real_priority = check_ceiling k.env k.cfg >>= λ cfg.
    new_battle_ingestor (normalize_tag k.runtime.wide claim.player_tag) cfg >>= λ b.
    ingest_entries k claim out real_priority b log.items 0 0

-- The priority is the old one after a classification that failed, which is else only logged.
unfoldable pub classified : Worker → ClaimResult → BattleLogResponse → ℕ → Sampled → M RunOutcome
classified k claim log real_priority s =
    if s.failed
    then unless_cancelled k.outside claim.player_tag (ingest_log k claim log s.out claim.priority)
    else ingest_log k claim log s.out real_priority

-- --- Classify and sample (first crawl) or update profile (re-crawl) ---
unfoldable pub classify_profile :
    Worker → ClaimResult → PlayerResponse → BattleLogResponse → M RunOutcome
classify_profile k claim profile log =
    let priority = priority_for_trophies profile.trophies in
    if claim.is_classified
    then handle (update_crawl_profile k.env claim.player_tag priority profile.trophies)
        (λ x.
          unless_cancelled k.outside claim.player_tag (ingest_log k claim log false claim.priority))
        (λ u. ingest_log k claim log false priority)
    else (classify_and_sample_target k.env claim.player_tag (bucket_for_trophies profile.trophies)
          priority profile.trophies k.cfg.bucket_cap
        >>= classified k claim log priority)

-- --- Ingest player profile ---
unfoldable pub ingest_profile :
    Worker → ClaimResult → PlayerResponse → BattleLogResponse → M RunOutcome
ingest_profile k claim profile log =
    handle (ingest_player k.runtime k.env profile) (λ x. ingest_failed k claim)
      (λ id. classify_profile k claim profile log)

-- --- Pre-ingestion ownership check ---
unfoldable pub check_ownership :
    Worker → ClaimResult → PlayerResponse → BattleLogResponse → M RunOutcome
check_ownership k claim profile log =
    handle (ownership_valid k.env claim.player_tag claim.generation)
      (λ x. unless_cancelled k.outside claim.player_tag (ends_with claim.player_tag error x))
      (λ owned.
        if owned then ingest_profile k claim profile log else ends claim.player_tag ownership_lost)

-- --- Fetch battle log ---
unfoldable pub fetch_log : Worker → ClaimResult → PlayerResponse → M RunOutcome
fetch_log k claim profile =
    handle (call (λ t. paced (k.outside.limiter t))) (λ x. ends claim.player_tag shutdown)
      (λ u.
        handle (call (λ t. k.outside.battle_log t claim.player_tag)) (api_failed k claim)
          (check_ownership k claim profile))

-- --- Fetch player profile ---
unfoldable pub fetch_profile : Worker → ClaimResult → M RunOutcome
fetch_profile k claim =
    handle (call (λ t. paced (k.outside.limiter t))) (λ x. ends claim.player_tag shutdown)
      (λ u.
        handle (call (λ t. k.outside.player t claim.player_tag)) (api_failed k claim)
          (fetch_log k claim))

unfoldable pub claimed : Worker → Option ClaimResult → M RunOutcome
claimed k none = ends [] empty
claimed k (some claim) = fetch_profile k claim

-- --- Claim ---
unfoldable pub run_once : Worker → M RunOutcome
run_once k =
    handle (claim_next_target k.env) (λ x. unless_cancelled k.outside [] (ends_with [] unset x))
      (claimed k)
