-- ===== src/Crawler/Worker/Settled/Recorded.antt =====
-- crawler/worker.go: the row of the claimed player after RunOnce, by the outcome that it reports.
use brawl_stars_guide.Base.{
  ℕ, suc, ◌+◌, ◌*◌, ◌≡◌, refl, Bool, true, false, ◌⊎◌, inl, inr, Bool-cases, none, some, Error,
  Result, ok, err, arith, ap, ◌∙◌, incr32, signed32, if◌then◌else◌, view_of, find-update_hit,
}
use brawl_stars_guide.Apiclient.Types.{PlayerResponse}
use brawl_stars_guide.Apiclient.Client.{is_not_found, is_too_many_requests}
use brawl_stars_guide.Domain.{priority_for_trophies}
use brawl_stars_guide.Storage.Schema.{
  Db, Status, success, sampled_out, not_found, rate_limited, error,
}
use brawl_stars_guide.Storage.Statement.{World, M, exec, handle, return, ◌>>◌}
use brawl_stars_guide.Storage.Crawl.{
  ClaimResult, has_tag, owns, claim_next_target, finalize_crawl, finalize_statement,
}
use brawl_stars_guide.Crawler.Backoff.{hour, base_interval, backoff_duration}
use brawl_stars_guide.Crawler.Worker.{
  Worker, RunOutcome, minutes_5, finalize, finalize_transient_error, finalize_api_error, finish,
  run_once, claimed,
}
use brawl_stars_guide.Crawler.Worker.Sparing.{spared, spares, finalize-then}
use brawl_stars_guide.Crawler.Worker.Settled.{Posts}
use brawl_stars_guide.Crawler.Worker.Settled.Logs.{FinishEnds, fetch_profile-Posts}
use brawl_stars_guide.Crawler.Worker.Settled.Rows.{RetryState, retry_view, retry_state}
use brawl_stars_guide.Crawler.Worker.Settled.Held.{Held, Left, held_rules}
use brawl_stars_guide.Crawler.Worker.Settled.Rules.{crawl_ops}
use brawl_stars_guide.Crawler.Worker.Settled.Leased.{view_of-some, has_tag-found, claim-generation}

-- The priorities whose interval a finished crawl waits: the claimed one, if the classification failed,
-- or that of the trophies which the API reported.
abbrev pub Due : Worker → ClaimResult → ℕ → Type 0
Due k claim p =
    (p ≡ claim.priority)
    ⊎ ((n : ℕ) × (profile : PlayerResponse) × (k.outside.player n claim.player_tag ≡ ok profile)
        × (p ≡ priority_for_trophies profile.trophies))

-- A finalized row: one more crawl, no lease, the same generation.
abbrev finalized : RetryState → ℕ → ℕ → Bool → RetryState
finalized s next_at failures is_active = record {
  consecutive_failures = failures;
  next_crawl_at = next_at;
  crawl_count = suc s.crawl_count;
  is_active = is_active;
  leased_until = none;
  crawl_generation = s.crawl_generation;
}

-- What each outcome records at the time `now`, for a crawl of the priority `p`: a success or a
-- deactivation by sampling clears the failures and waits the interval of the priority; 404 deactivates
-- the player, with the failures unchanged; 429 waits five minutes, with the failures unchanged; any
-- other failure counts, and waits the backoff from the claimed priority.
abbrev pub after_status : Worker → ClaimResult → RetryState → Status → ℕ → ℕ → RetryState
after_status k claim s success now p = finalized s (now + base_interval p) 0 true
after_status k claim s sampled_out now p = finalized s (now + base_interval p) 0 false
after_status k claim s not_found now p =
    finalized s (now + 24 * hour) claim.consecutive_failures false
after_status k claim s rate_limited now p =
    finalized s (now + minutes_5) claim.consecutive_failures true
after_status k claim s error now p =
    finalized s
      (now
        + backoff_duration k.outside.to_int64 (base_interval claim.priority)
            (signed32 claim.consecutive_failures))
      (incr32 claim.consecutive_failures) true
after_status k claim s _ now p = s

-- The row after an outcome whose finalization, if there is one, is the step `t`. Where FinalizeCrawl
-- fails, or the outcome spares the player, the row stays as it was.
unfoldable pub recorded_state :
    Worker → ClaimResult → RetryState → Result RunOutcome → ℕ → ℕ → RetryState
recorded_state k claim s (err x) t p = s
recorded_state k claim s (ok o) t p =
    if spared o
    then s
    else if k.env.fails t
    then s
    else after_status k claim s o.result.status (k.env.wall t) p

-- The outcome and the row agree.
abbrev pub Recorded : Worker → ClaimResult → RetryState → Result RunOutcome → World → Type 0
Recorded k claim s r w =
    (t : ℕ) × (p : ℕ) × Due k claim p
    × (retry_state claim.player_tag w.db ≡ some (recorded_state k claim s r t p))

module _ (k : Worker) (claim : ClaimResult) (s : RetryState) (left : Left claim.player_tag s k.env)
    (current : s.crawl_generation ≡ claim.generation) where
  -- The statement of a finalization, where the row is as the claim left it.
  finalize-state :
      (status : Status) (next failures : ℕ) (active : Bool) (o : RunOutcome) (w : World)
      → Held claim.player_tag s w
      → retry_state claim.player_tag
          ((finalize k.env claim status next failures active >> return o) w).1.db
        ≡ some (if k.env.fails w.step then s else finalized s next failures active)
  unfolding finalize finalize_crawl finalize_statement exec handle
  finalize-state status next failures active o w held = elim (Bool-cases (k.env.fails w.step)) [
    | inl down ↦ rw (down, exec) (left w.step w.db held)
    | inr up ↦
        let (r, found, view) = view_of-some _ s (left w.step w.db held) in
        let mine : owns claim.player_tag claim.generation r ≡ true =
          ground
            (arith, has_tag-found claim.player_tag _ r found, ap (λ v. v.crawl_generation) view) in
        rw (up, exec)
          (ap (view_of retry_view) (
              find-update_hit (has_tag claim.player_tag) (owns claim.player_tag claim.generation) _
                _ r (λ x. refl) found mine)
            ∙ ap (λ v. some (finalized v next failures active)) view)
  ]

  ends-Recorded :
      (status : Status) (next failures p : ℕ) (active : Bool) (o : RunOutcome) (w : World)
      → spared o ≡ false
      → Due k claim p
      → after_status k claim s o.result.status (k.env.wall w.step) p
        ≡ finalized s next failures active
      → Held claim.player_tag s w
      → let m : M RunOutcome = (finalize k.env claim status next failures active >> return o) in
        Recorded k claim s (m w).0 (m w).1
  unfolding recorded_state
  ends-Recorded status next failures p active o w final due same held = (
    w.step,
    p,
    due,
    finalize-state status next failures active o w held
        ∙ ap some (cc (finalize-then k.env claim status next failures active o w, final, same)),
  )

  transient-Recorded :
      Posts (Held claim.player_tag s) (Recorded k claim s) (finalize_transient_error k claim)
  unfolding finalize_transient_error
  transient-Recorded w held = ends-Recorded _ _ _ claim.priority _ _ w refl (inl refl) refl held

  refused-Recorded :
      (x : Error)
      → Posts (Held claim.player_tag s) (Recorded k claim s) (finalize_api_error k claim x)
  unfolding finalize_api_error
  refused-Recorded x w held = elim (Bool-cases (is_not_found x)) [
    | inl gone ↦
        rw (gone, finalize_api_error)
          (ends-Recorded _ _ _ claim.priority _ _ w refl (inl refl) refl held)
    | inr found ↦ elim (Bool-cases (is_too_many_requests x)) [
      | inl busy ↦
          rw (found, finalize_api_error)
            (rw (busy) (ends-Recorded _ _ _ claim.priority _ _ w refl (inl refl) refl held))
      | inr calm ↦ rw (found, finalize_api_error) (rw (calm) (transient-Recorded w held))
    ]
  ]

  finishes-Recorded :
      (out : Bool) (priority new found : ℕ)
      → Due k claim priority
      → Posts (Held claim.player_tag s) (Recorded k claim s) (finish k claim out priority new found)
  unfolding finish
  finishes-Recorded true priority new found due w held =
      ends-Recorded _ _ _ priority _ _ w refl due refl held
  finishes-Recorded false priority new found due w held =
      ends-Recorded _ _ _ priority _ _ w refl due refl held

  sparing-Recorded :
      (r : Result RunOutcome) (w : World)
      → spares r ≡ true
      → Held claim.player_tag s w
      → Recorded k claim s r w
  unfolding recorded_state
  sparing-Recorded (ok o) w h held = (0, claim.priority, inl refl, rw h held)
  sparing-Recorded (err x) w h held = (0, claim.priority, inl refl, held)

  endings : FinishEnds (Held claim.player_tag s) (Recorded k claim s) (Due k claim) k claim
  endings = record {
    sparing = sparing-Recorded;
    finishes = finishes-Recorded;
    transient = transient-Recorded;
    refused = refused-Recorded;
    claimed_due = inl refl;
    fetched_due = λ n profile got. inr (n, profile, got, refl);
  }

-- What RunOnce records, after a claim of a player whose row others leave alone: whatever the API, the
-- limiter, the database and the cancellations do, the row at the end agrees with the outcome that is
-- reported. An outcome that spares the player leaves the row as the claim made it. Any other outcome
-- has counted one more crawl and given up the lease, and has set the failures, the next time and the
-- activity that its status asks for, unless FinalizeCrawl failed, which leaves the row as it was.
pub run_once_records :
    (k : Worker) (claim : ClaimResult) (s : RetryState) (w v : World)
    → claim_next_target k.env w ≡ (ok (some claim), v)
    → retry_state claim.player_tag v.db ≡ some s
    → ((n : ℕ) (d : Db)
        → retry_state claim.player_tag d ≡ some s
        → retry_state claim.player_tag (k.env.others n d) ≡ some s)
    → Recorded k claim s (run_once k w).0 (run_once k w).1
unfolding run_once handle claimed
run_once_records k claim s w v got held left =
    rw (got, run_once, handle)
      (fetch_profile-Posts (Held claim.player_tag s) (Recorded k claim s) (Due k claim) k claim
        (crawl_ops k claim _ (held_rules claim.player_tag s k.env left))
        (endings k claim s left (claim-generation k.env w v claim s got held)) v held)
