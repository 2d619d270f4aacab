-- ===== src/Crawler/Worker/Sparing.antt =====
-- crawler/worker.go: the outcomes that leave the claimed player as it was.
use brawl_stars_guide.Base.{
  ℕ, Bool, true, false, ◌≡◌, Text, none, some, Error, Result, ok, err, if◌then◌else◌, Bool-cases,
  inl, inr, arith,
}
use brawl_stars_guide.Apiclient.Client.{is_not_found, is_too_many_requests}
use brawl_stars_guide.Storage.Schema.{
  Status, not_found, rate_limited, error, ownership_lost, shutdown,
}
use brawl_stars_guide.Storage.Statement.{Env, World, handle, return, ◌>>◌}
use brawl_stars_guide.Storage.Crawl.{ClaimResult}
use brawl_stars_guide.Crawler.Worker.{
  Worker, RunOutcome, outcome_of, finalize, finalize_transient_error, finalize_api_error, finish,
}

-- Outcomes of RunOnce that leave the claimed player as it was: a shutdown, a lost lease, and every
-- outcome with an error, a global halt among them.
abbrev pub spared_status : Status → Bool
spared_status shutdown = true
spared_status ownership_lost = true
spared_status _ = false

abbrev pub spared : RunOutcome → Bool
spared o = elim o.error [ some x ↦ true | none ↦ spared_status o.result.status ]

abbrev pub spares : Result RunOutcome → Bool
spares (ok o) = spared o
spares (err x) = true

-- finalize only logs its error, so that what follows it is always reached.
pub finalize-then :
    (e : Env) (claim : ClaimResult) (status : Status) (next failures : ℕ) (active : Bool)
    (o : RunOutcome) (w : World)
    → ((finalize e claim status next failures active >> return o) w).0 ≡ ok o
unfolding finalize handle
finalize-then e claim status next failures active o w = ground arith

pub transient-result :
    (k : Worker) (claim : ClaimResult) (w : World)
    → (finalize_transient_error k claim w).0 ≡ ok (outcome_of claim.player_tag error)
unfolding finalize_transient_error
transient-result k claim w = finalize-then k.env claim _ _ _ _ _ w

-- The status that an error of the API gives.
abbrev pub api_status : Error → Status
api_status x =
    if is_not_found x then not_found else if is_too_many_requests x then rate_limited else error

pub api_error-result :
    (k : Worker) (claim : ClaimResult) (x : Error) (w : World)
    → (finalize_api_error k claim x w).0 ≡ ok (outcome_of claim.player_tag (api_status x))
unfolding finalize_api_error
api_error-result k claim x w = elim (Bool-cases (is_not_found x)) [
  | inl gone ↦ rw (gone, finalize_api_error) (finalize-then k.env claim _ _ _ _ _ w)
  | inr found ↦ elim (Bool-cases (is_too_many_requests x)) [
    | inl busy ↦ rw (found, finalize_api_error) (rw (busy) (finalize-then k.env claim _ _ _ _ _ w))
    | inr calm ↦ rw (found, finalize_api_error) (rw (calm) (transient-result k claim w))
  ]
]

pub api_status-not_spared :
    (x : Error) (tag : Text) → spared (outcome_of tag (api_status x)) ≡ false
api_status-not_spared x tag = ground arith

pub finish-result :
    (k : Worker) (claim : ClaimResult) (out : Bool) (priority new found : ℕ) (w : World)
    → spares (finish k claim out priority new found w).0 ≡ false
unfolding finish
finish-result k claim true priority new found w = rw (finalize-then k.env claim _ _ _ _ _ w)
finish-result k claim false priority new found w = rw (finalize-then k.env claim _ _ _ _ _ w)
