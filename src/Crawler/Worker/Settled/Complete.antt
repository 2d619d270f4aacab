-- ===== src/Crawler/Worker/Settled/Complete.antt =====
-- crawler/worker.go: what is stored of the battle log when RunOnce reports a finished crawl.
use brawl_stars_guide.Base.{
  ℕ, Bool, true, false, ◌≡◌, refl, List, [], ◌∷◌, none, some, Error, Result, ok, err, Bool-cases,
  inl, inr, arith, All,
}
use brawl_stars_guide.Apiclient.Types.{BattleEntry, BattleLogResponse}
use brawl_stars_guide.Storage.Schema.{Status, success, sampled_out}
use brawl_stars_guide.Storage.Statement.{World, handle}
use brawl_stars_guide.Storage.Statement.Ensures.{Ensures, handle-Ensures, bind-Ensures}
use brawl_stars_guide.Storage.Crawl.{ClaimResult, claim_next_target}
use brawl_stars_guide.Ingestion.Runtime.{Runtime}
use brawl_stars_guide.Ingestion.Discovery.{BattleIngestor}
use brawl_stars_guide.Ingestion.Battle.Rows.{KeepsRows}
use brawl_stars_guide.Ingestion.Battle.Entries.{EntryStored, ingest_battle-EntryStored}
use brawl_stars_guide.Crawler.Worker.{
  Worker, RunOutcome, finalize_transient_error, ingest_failed, ingest_entries, ingest_log, run_once,
  claimed,
}
use brawl_stars_guide.Crawler.Worker.Sparing.{
  spared, spares, api_status, transient-result, api_error-result,
}
use brawl_stars_guide.Crawler.Worker.Settled.{CrawlOps, CrawlEnds}
use brawl_stars_guide.Crawler.Worker.Settled.Lasts.{entry-lasts}
use brawl_stars_guide.Crawler.Worker.Settled.Stages.{stages-Posts}

-- An outcome without an error, that reports a success or a deactivation by sampling.
abbrev completes : Status → Bool
completes success = true
completes sampled_out = true
completes _ = false

abbrev pub complete : RunOutcome → Bool
complete o = elim o.error [ some x ↦ false | none ↦ completes o.result.status ]

abbrev pub completed : Result RunOutcome → Bool
completed (ok o) = complete o
completed (err x) = false

abbrev pub EntriesStored : Runtime → List BattleEntry → World → Type 0
EntriesStored rt entries w = All (λ entry. EntryStored rt entry w) entries

-- A log that the API returned for the player, whose entries are all stored.
abbrev pub LogStored : Worker → ClaimResult → World → Type 0
LogStored k claim w =
    (n : ℕ) × (log : BattleLogResponse) × (k.outside.battle_log n claim.player_tag ≡ ok log)
    × EntriesStored k.runtime log.items w

spared-not_complete : (o : RunOutcome) → spared o ≡ true → complete o ≡ false
spared-not_complete o h = ground arith

api_status-not_complete : (x : Error) → completes (api_status x) ≡ false
api_status-not_complete x = ground arith

module _ (k : Worker) (claim : ClaimResult) (keeps : KeepsRows k.env) where
  transient-not_complete : Ensures (λ o w. complete o ≡ false) (finalize_transient_error k claim)
  transient-not_complete w o eq = cc (transient-result k claim w)

  failed-not_complete : Ensures (λ o w. complete o ≡ false) (ingest_failed k claim)
  unfolding ingest_failed
  failed-not_complete w o eq = elim (Bool-cases (k.outside.cancelled w.step)) [
    | inl c ↦ ground arith
    | inr c ↦ transient-not_complete w o (rw (c, ingest_failed) at eq)
  ]

  entries-stored :
      (out : Bool) (priority : ℕ) (b : BattleIngestor) (entries : List BattleEntry) (new found : ℕ)
      → Ensures
          (λ o w. complete o ≡ true → EntriesStored k.runtime entries w)
          (ingest_entries k claim out priority b entries new found)
  unfolding ingest_entries
  entries-stored out priority b [] new found = λ w o eq c. tt
  entries-stored out priority b (entry ∷ entries) new found =
      handle-Ensures (λ r. EntryStored k.runtime entry)
        (λ o w. complete o ≡ true → EntriesStored k.runtime (entry ∷ entries) w) _ _ _
        (ingest_battle-EntryStored k.runtime k.env b entry keeps)
        (λ x w o eq c. absurd (cc (failed-not_complete w o eq)))
        (λ r v has o eq c. (
          entry-lasts k claim keeps entry out priority b entries _ _ v has,
          entries-stored out priority b entries _ _ v o eq c,
        ))

  log-stored :
      (log : BattleLogResponse) (out : Bool) (priority : ℕ)
      → Ensures
          (λ o w. complete o ≡ true → EntriesStored k.runtime log.items w)
          (ingest_log k claim log out priority)
  unfolding ingest_log
  log-stored log out priority =
      let Goal : RunOutcome → World → Type 0 =
        λ o w. complete o ≡ true → EntriesStored k.runtime log.items w in
      bind-Ensures (λ cfg w. Unit) Goal _ _ (λ w cfg eq. tt)
        (λ cfg v t.
          bind-Ensures (λ b w. Unit) Goal _ _ (λ w b eq. tt)
            (λ b u s. entries-stored out priority b log.items 0 0 u) v)

  -- Only what the API, the limiter and the claim do matters before the battle log.
  anything : CrawlOps (λ w. Unit) k claim
  anything = record {
    player = record {
      upsert = λ tag name w t. tt;
      patch = λ time w t. tt;
      snapshot = λ p w t. tt;
      brawler = λ p w t. tt;
      crawled = λ tag w t. tt;
    };
    battle = λ b. record {
      event = λ id mode map_name w t. tt;
      patch = λ time w t. tt;
      battle = λ p w t. tt;
      team = λ id i result w t. tt;
      brawler = λ id name w t. tt;
      participant = λ p w t. tt;
      discovery = λ tag name found w t. tt;
    };
    owner = λ w t. tt;
    active = λ w t. tt;
    profile = λ priority trophies w t. tt;
    sample = λ bucket priority trophies cap w t. tt;
    step = λ w n t. tt;
    counter = λ w n t. tt;
  }

  endings :
      CrawlEnds (λ w. Unit) (λ r w. completed r ≡ true → LogStored k claim w) (λ n. Unit) k claim
  endings = record {
    sparing = spare;
    logs = λ n log out priority got due w t c.
        (n, log, got, stored log out priority w (ingest_log k claim log out priority w).0 refl c);
    transient = λ w t c. absurd (cc (transient-result k claim w));
    refused = λ x w t c. absurd (cc (api_error-result k claim x w, api_status-not_complete x));
    claimed_due = tt;
    fetched_due = λ n profile got. tt;
  }
    where
      spare :
          (r : Result RunOutcome) (w : World)
          → spares r ≡ true
          → Unit {0}
          → completed r ≡ true
          → LogStored k claim w
      spare (ok o) w s t c = absurd (cc (spared-not_complete o s))
      spare (err x) w s t c = absurd (cc)

      stored :
          (log : BattleLogResponse) (out : Bool) (priority : ℕ) (w : World) (r : Result RunOutcome)
          → (ingest_log k claim log out priority w).0 ≡ r
          → completed r ≡ true
          → EntriesStored k.runtime log.items (ingest_log k claim log out priority w).1
      stored log out priority w (ok o) eq c = log-stored log out priority w o eq c
      stored log out priority w (err x) eq c = absurd (cc)

-- If RunOnce, after a claim, reports a success or a deactivation by sampling, without an error, the API
-- has returned a battle log for the claimed player, and after RunOnce every entry of that log is
-- stored: its time could be read, a battle with the fingerprint of that time, its event and its tags is
-- in the table, and every player of the entry (of its teams, if it has any) has a row of that battle.
-- Other transactions may commit in between, as long as they keep the stored battles and participants.
pub run_once_stores :
    (k : Worker) (claim : ClaimResult) (w v : World)
    → KeepsRows k.env
    → claim_next_target k.env w ≡ (ok (some claim), v)
    → completed (run_once k w).0 ≡ true
    → LogStored k claim (run_once k w).1
unfolding run_once handle claimed
run_once_stores k claim w v keeps got c =
    rw (got, run_once, handle)
      (stages-Posts (λ w. Unit) (λ r w. completed r ≡ true → LogStored k claim w) (λ n. Unit) k
        claim (anything k claim keeps) (endings k claim keeps) v tt
        (rw (got, run_once, handle) at c))
