-- ===== src/Crawler/Scheduler/Statistics.antt =====
-- crawler/scheduler.go: what Run counts.
use brawl_stars_guide.Base.{
  ℕ, ◌+◌, ◌≡◌, refl, ap, ◌∙◌, Bool, true, false, none, some, List, [], ◌∷◌, arith, count_where,
  sum_of, if◌then◌else◌,
}
use brawl_stars_guide.Storage.Schema.{
  Status, success, sampled_out, not_found, rate_limited, error, ownership_lost, unset,
}
use brawl_stars_guide.Crawler.Worker.{RunOutcome}
use brawl_stars_guide.Crawler.Scheduler.{
  Shared, Stats, System, Round, Moves, enters, crawl_done, notice_cancel, wake, wake_cancelled,
  signal, here, next, run_round, run_switch,
}

-- The results of the calls of RunOnce that ended, of all goroutines, the last one first.
unfoldable pub outcomes :
    {round : Shared → RunOutcome → Round} {s t : System} → Moves round s t → List RunOutcome
outcomes here = []
outcomes (next ms (crawl_done before after o e sh f)) = o ∷ outcomes ms
outcomes (next ms m) = outcomes ms

-- The result has no error, and a status of the kind.
abbrev pub reports : (Status → Bool) → RunOutcome → Bool
reports kind o = elim o.error [ some x ↦ false | none ↦ kind o.result.status ]

abbrev pub is_success : Status → Bool
is_success success = true
is_success _ = false

abbrev pub is_missing : Status → Bool
is_missing not_found = true
is_missing _ = false

abbrev pub is_limited : Status → Bool
is_limited rate_limited = true
is_limited _ = false

-- The crawls whose player was deactivated by sampling, or whose lease was lost, count as errors too.
abbrev pub is_failure : Status → Bool
is_failure sampled_out = true
is_failure ownership_lost = true
is_failure error = true
is_failure unset = true
is_failure _ = false

abbrev pub found_by : RunOutcome → ℕ
found_by o = if reports is_success o then o.result.discoveries else 0

-- The counters `b` are `a` with the results added.
pub record Tally (a b : Stats) (os : List RunOutcome) : Type 0 where
  pub successes : b.crawled ≡ a.crawled + count_where (reports is_success) os
  pub missing : b.not_found_count ≡ a.not_found_count + count_where (reports is_missing) os
  pub limited : b.rate_limited_count ≡ a.rate_limited_count + count_where (reports is_limited) os
  pub failures : b.errors ≡ a.errors + count_where (reports is_failure) os
  pub found : b.discoveries ≡ a.discoveries + sum_of found_by os

one_more :
    (a b : Stats) (os : List RunOutcome) (s : Shared) (o : RunOutcome)
    → b ≡ s.stats
    → Tally a b os
    → Tally a (run_round s o).0.stats (o ∷ os)
unfolding run_round run_switch count_where
one_more a b os s o same t = record {
  successes = ground (arith, t.successes, ap (λ z. z.crawled) same);
  missing = ground (arith, t.missing, ap (λ z. z.not_found_count) same);
  limited = ground (arith, t.limited, ap (λ z. z.rate_limited_count) same);
  failures = ground (arith, t.failures, ap (λ z. z.errors) same);
  found = ground (arith, t.found, ap (λ z. z.discoveries) same);
}

same_counts : (a b c : Stats) (os : List RunOutcome) → c ≡ b → Tally a b os → Tally a c os
same_counts a b c os e t = record {
  successes = ap (λ z. z.crawled) e ∙ t.successes;
  missing = ap (λ z. z.not_found_count) e ∙ t.missing;
  limited = ap (λ z. z.rate_limited_count) e ∙ t.limited;
  failures = ap (λ z. z.errors) e ∙ t.failures;
  found = ap (λ z. z.discoveries) e ∙ t.found;
}

-- However the goroutines of Run interleave, each of its counters has grown by the results that it
-- stands for: the crawls by the successes, the missing and the rate limited players by theirs, the
-- discoveries by those of the successes, and the errors by all others but an empty queue and a
-- shutdown, so that a crawl whose player was deactivated by sampling is counted as an error and its
-- discoveries are not counted. A result with an error is not counted.
pub run_counts :
    {s t : System} (ms : Moves run_round s t) → Tally s.shared.stats t.shared.stats (outcomes ms)
unfolding outcomes count_where
run_counts here = record {
  successes = omega arith;
  missing = omega arith;
  limited = omega arith;
  failures = omega arith;
  found = omega arith;
}
run_counts {s} {t} (next {t = v} ms (crawl_done before after o e sh f)) =
    same_counts _ _ _ _ (ap (λ z. z.stats) sh)
      (one_more _ _ (outcomes ms) v.shared o refl (run_counts ms))
run_counts {s} {t} (next {t = v} ms (enters before after e c sh f)) =
    same_counts _ _ _ _ (ap (λ z. z.stats) sh) (run_counts ms)
run_counts {s} {t} (next {t = v} ms (notice_cancel before after e c sh f)) =
    same_counts _ _ _ _ (ap (λ z. z.stats) sh) (run_counts ms)
run_counts {s} {t} (next {t = v} ms (wake before after e sh f)) =
    same_counts _ _ _ _ (ap (λ z. z.stats) sh) (run_counts ms)
run_counts {s} {t} (next {t = v} ms (wake_cancelled before after e c sh f)) =
    same_counts _ _ _ _ (ap (λ z. z.stats) sh) (run_counts ms)
run_counts {s} {t} (next {t = v} ms (signal sh f)) =
    same_counts _ _ _ _ (ap (λ z. z.stats) sh) (run_counts ms)
