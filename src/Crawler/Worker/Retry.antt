-- ===== src/Crawler/Worker/Retry.antt =====
-- crawler/worker.go: what a failed crawl records for its player.
use brawl_stars_guide.Base.{
  ℕ, ◌+◌, ◌*◌, ◌≡◌, refl, Bool, true, false, Text, Option, some, Error, if◌then◌else◌, find_where,
  find-update_hit, incr32, signed32, Bool-cases, inl, inr,
}
use brawl_stars_guide.Apiclient.Client.{is_not_found, is_too_many_requests}
use brawl_stars_guide.Storage.Schema.{Target, Status, not_found, rate_limited, error}
use brawl_stars_guide.Storage.Statement.{Env, World, handle, exec, return, ◌>>◌}
use brawl_stars_guide.Storage.Crawl.{
  ClaimResult, FinalizeParams, has_tag, owns, finalize_row, finalize_statement, finalize_crawl,
}
use brawl_stars_guide.Crawler.Backoff.{hour, base_interval, backoff_duration}
use brawl_stars_guide.Crawler.Worker.{
  Worker, RunOutcome, minutes_5, finalize, finalize_transient_error, finalize_api_error,
}

-- The claimed player's row, as others left it before the next step.
abbrev pub current_row : Worker → ClaimResult → World → Option Target
current_row k claim w = find_where (has_tag claim.player_tag) (k.env.others w.step w.db).targets

abbrev pub row_after : Text → World → Option Target
row_after tag w = find_where (has_tag tag) w.db.targets

finalize-row :
    (e : Env) (claim : ClaimResult) (status : Status) (next failures : ℕ) (active : Bool)
    (o : RunOutcome) (w : World) (r : Target)
    → e.fails w.step ≡ false
    → find_where (has_tag claim.player_tag) (e.others w.step w.db).targets ≡ some r
    → owns claim.player_tag claim.generation r ≡ true
    → row_after claim.player_tag ((finalize e claim status next failures active >> return o) w).1
      ≡ some (
          finalize_row
            (record {
              player_tag = claim.player_tag;
              generation = claim.generation;
              status = status;
              next_crawl_at = next;
              consecutive_failures = failures;
              is_active = active;
            })
            (e.db_now w.step)
            r)
unfolding finalize finalize_crawl finalize_statement exec handle
finalize-row e claim status next failures active o w r up found mine =
    rw (up, exec) (find-update_hit (has_tag claim.player_tag) _ _ _ r (λ x. refl) found mine)

-- What finalizeAPIError is to record: 404 deactivates the player for a day, with the failures
-- unchanged; 429 tries again in five minutes, with the failures unchanged; any other error counts as
-- one more failure and backs off from the interval of the claimed priority.
pub recorded : Worker → ClaimResult → Error → ℕ → FinalizeParams
recorded k claim x now =
    if is_not_found x
    then record {
      player_tag = claim.player_tag;
      generation = claim.generation;
      status = not_found;
      next_crawl_at = now + 24 * hour;
      consecutive_failures = claim.consecutive_failures;
      is_active = false;
    }
    else if is_too_many_requests x
    then record {
      player_tag = claim.player_tag;
      generation = claim.generation;
      status = rate_limited;
      next_crawl_at = now + minutes_5;
      consecutive_failures = claim.consecutive_failures;
      is_active = true;
    }
    else record {
      player_tag = claim.player_tag;
      generation = claim.generation;
      status = error;
      next_crawl_at =
          now
          + backoff_duration k.outside.to_int64 (base_interval claim.priority)
              (signed32 claim.consecutive_failures);
      consecutive_failures = incr32 claim.consecutive_failures;
      is_active = true;
    }

-- Where the statement does not fail and the claim's generation is still the row's, an error of the
-- API leaves the player's row finalized with just what its class asks for: a day's deactivation for
-- 404, five minutes for 429, one more failure and the backoff for the rest.
pub finalize_api_error-row :
    (k : Worker) (claim : ClaimResult) (x : Error) (w : World) (r : Target)
    → k.env.fails w.step ≡ false
    → current_row k claim w ≡ some r
    → owns claim.player_tag claim.generation r ≡ true
    → row_after claim.player_tag (finalize_api_error k claim x w).1
      ≡ some (finalize_row (recorded k claim x (k.env.wall w.step)) (k.env.db_now w.step) r)
unfolding finalize_api_error finalize_transient_error recorded
finalize_api_error-row k claim x w r up found mine = elim (Bool-cases (is_not_found x)) [
  | inl gone ↦
      rw (gone, finalize_api_error, recorded) (finalize-row k.env claim _ _ _ _ _ w r up found mine)
  | inr here ↦ elim (Bool-cases (is_too_many_requests x)) [
    | inl busy ↦
        rw (here, finalize_api_error, recorded)
          (rw (busy) (finalize-row k.env claim _ _ _ _ _ w r up found mine))
    | inr calm ↦
        rw (here, finalize_api_error, recorded)
          (rw (calm) (finalize-row k.env claim _ _ _ _ _ w r up found mine))
  ]
]
