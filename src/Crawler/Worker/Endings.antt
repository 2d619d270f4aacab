-- ===== src/Crawler/Worker/Endings.antt =====
-- crawler/worker.go: the types of a worker, and its ways to finalize a crawl. Log lines are left out.
use brawl_stars_guide.Base.{
  ℕ, suc, ◌+◌, ◌*◌, Bool, true, false, ◌||◌, Text, [], Option, none, some, ℤ, Error, other,
  global_halt, Result, ok, err, if◌then◌else◌, incr32, signed32,
}
use brawl_stars_guide.Apiclient.Types.{PlayerResponse, BattleLogResponse}
use brawl_stars_guide.Apiclient.Client.{
  is_not_found, is_too_many_requests, is_unauthorized, is_forbidden,
}
use brawl_stars_guide.Ratelimit.{Outcome, granted, ctx_error}
use brawl_stars_guide.Storage.Schema.{
  Status, success, sampled_out, not_found, rate_limited, error, shutdown, unset,
}
use brawl_stars_guide.Storage.Statement.{Env, M, handle, return, ◌>>◌}
use brawl_stars_guide.Storage.Crawl.{ClaimResult, finalize_crawl}
use brawl_stars_guide.Ingestion.Runtime.{Runtime}
use brawl_stars_guide.Crawler.Backoff.{hour, base_interval, backoff_duration}

pub record WorkerConfig : Type 0 where
  pub max_discoveries_per_crawl : ℤ
  pub max_active_targets : ℤ
  pub bucket_cap : ℤ

pub record WorkResult : Type 0 where
  pub tag : Text
  pub status : Status
  pub battles_new : ℕ
  pub discoveries : ℕ

-- RunOnce returns both a result and an error.
pub record RunOutcome : Type 0 where
  pub result : WorkResult
  pub error : Option Error

-- The API client, the limiter and the context of a worker, by the number of the step.
pub record Outside : Type 0 where
  pub player : ℕ → Text → Result PlayerResponse
  pub battle_log : ℕ → Text → Result BattleLogResponse
  pub limiter : ℕ → Outcome
  pub cancelled : ℕ → Bool  -- ctx.Err() != nil
  pub to_int64 : ℕ → ℤ  -- the machine's conversion of a large float64

-- All that a worker is given.
pub record Worker : Type 0 where
  pub runtime : Runtime
  pub env : Env
  pub outside : Outside
  pub cfg : WorkerConfig

-- A call of the world outside the database is a step of its own.
unfoldable pub call : {A : Type 0} → (ℕ → Result A) → M A
call f w = (f w.step, record w { step = suc w.step })

abbrev pub paced : Outcome → Result (Unit {0})
paced granted = ok tt
paced ctx_error = err other

abbrev pub outcome_of : Text → Status → RunOutcome
outcome_of tag status = record {
  result = record { tag = tag; status = status; battles_new = 0; discoveries = 0 };
  error = none;
}

abbrev pub ends : Text → Status → M RunOutcome
ends tag status = return (outcome_of tag status)

abbrev pub ends_with : Text → Status → Error → M RunOutcome
ends_with tag status x = return (record (outcome_of tag status) { error = some x })

-- if ctx.Err() != nil { return shutdown }
abbrev pub unless_cancelled : Outside → Text → M RunOutcome → M RunOutcome
unless_cancelled o tag m w = if o.cancelled w.step then (ok (outcome_of tag shutdown), w) else m w

abbrev pub minutes_5 : ℕ
minutes_5 = 300000000000

-- finalize: the error of FinalizeCrawl is only logged.
unfoldable pub finalize : Env → ClaimResult → Status → ℕ → ℕ → Bool → M (Unit {0})
finalize e claim status next_at failures is_active =
    handle
      (finalize_crawl e (record {
        player_tag = claim.player_tag;
        generation = claim.generation;
        status = status;
        next_crawl_at = next_at;
        consecutive_failures = failures;
        is_active = is_active;
      }))
      (λ x. return tt) (λ ok?. return tt)

-- The time of the next try after a transient failure.
abbrev retry_at : Worker → ClaimResult → ℕ → ℕ
retry_at k claim now =
    now
    + backoff_duration k.outside.to_int64 (base_interval claim.priority)
        (signed32 claim.consecutive_failures)

unfoldable pub finalize_transient_error : Worker → ClaimResult → M RunOutcome
finalize_transient_error k claim w =
    (finalize k.env claim error (retry_at k claim (k.env.wall w.step))
          (incr32 claim.consecutive_failures) true
        >> ends claim.player_tag error)
      w

unfoldable pub finalize_api_error : Worker → ClaimResult → Error → M RunOutcome
finalize_api_error k claim x w =
    let now = k.env.wall w.step in
    if is_not_found x
    then (finalize k.env claim not_found (now + 24 * hour) claim.consecutive_failures false
          >> ends claim.player_tag not_found)
        w
    else if is_too_many_requests x
    then (finalize k.env claim rate_limited (now + minutes_5) claim.consecutive_failures true
          >> ends claim.player_tag rate_limited)
        w
    else finalize_transient_error k claim w

-- After an error of GetPlayer or GetBattleLog.
unfoldable pub api_failed : Worker → ClaimResult → Error → M RunOutcome
api_failed k claim x w =
    if is_unauthorized x || is_forbidden x
    then ends_with [] unset global_halt w
    else unless_cancelled k.outside claim.player_tag (finalize_api_error k claim x) w

-- After an error of IngestPlayer or IngestBattle.
unfoldable pub ingest_failed : Worker → ClaimResult → M RunOutcome
ingest_failed k claim =
    unless_cancelled k.outside claim.player_tag (finalize_transient_error k claim)

-- --- Finalize ---
unfoldable pub finish : Worker → ClaimResult → Bool → ℕ → ℕ → ℕ → M RunOutcome
finish k claim out real_priority battles_new discoveries w =
    let status = if out then sampled_out else success in
    (finalize k.env claim status (k.env.wall w.step + base_interval real_priority) 0
          (if out then false else true)
        >> return (record {
          result = record {
            tag = claim.player_tag;
            status = status;
            battles_new = battles_new;
            discoveries = discoveries;
          };
          error = none;
        }))
      w
