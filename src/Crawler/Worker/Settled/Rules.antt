-- ===== src/Crawler/Worker/Settled/Rules.antt =====
-- crawler/worker.go: facts about the rows of the queue over the statements of a crawl.
use brawl_stars_guide.Base.{
  ℕ, Bool, true, false, ◌≡◌, refl, Text, text_eq, List, Result, ℤ, Bool-cases, inl, inr, arith,
  String, Error, no_rows, api_error, global_halt, other, update_where,
}
use brawl_stars_guide.Storage.Schema.{Db}
use brawl_stars_guide.Storage.Statement.{Env, World, exec}
use brawl_stars_guide.Storage.Statement.Keeps.{Keeps, exec-keeps_db, bind-keeps, handle-keeps}
use brawl_stars_guide.Storage.Crawl.{has_tag, ClaimResult, ownership_valid, ownership_statement}
use brawl_stars_guide.Crawler.Worker.{Worker}
use brawl_stars_guide.Crawler.Worker.Settled.{CrawlOps}
use brawl_stars_guide.Storage.Sampling.{
  classify_and_sample_target, update_crawl_profile, sample_rows, profile_row, active_target_count,
}
use brawl_stars_guide.Storage.Players.{
  upsert_player, update_player_crawled, insert_player_snapshot, insert_player_brawler_snapshot,
  brawler_snapshot_statement, snapshot_statement, zero_if_no_rows, PlayerSnapshotParams,
  enqueue_discovered_player, enqueue_statement,
}
use brawl_stars_guide.Storage.Battles.{
  upsert_event, insert_battle, insert_battle_statement, insert_battle_team, team_statement,
  insert_battle_participant, participant_statement, battle_id_by_fingerprint, after_conflict,
  BattleParams,
}
use brawl_stars_guide.Storage.Brawlers.{ensure_retired_brawler, ensure_statement}
use brawl_stars_guide.Storage.Patches.{patch_id_for_time}
use brawl_stars_guide.Ingestion.Discovery.{
  BattleIngestor, discover_player, try_enqueue, exhausted, count_discovery,
}
use brawl_stars_guide.Ingestion.Runtime.{Runtime}
use brawl_stars_guide.Ingestion.Battle.Effects.{event-targets, team-targets, BattleOps}
use brawl_stars_guide.Ingestion.Player.Effects.{PlayerOps}

-- What a fact about the database needs to be kept by the statements that a crawl of the player makes
-- before it finalizes: others keep it, it is about crawl_targets only, and the statements that touch
-- that table keep it.
pub record QueueRules (e : Env) (tag : Text) (Q : Db → Type 0) : Type 0 where
  pub others : (n : ℕ) (d : Db) → Q d → Q (e.others n d)
  pub elsewhere : (d d' : Db) → d'.targets ≡ d.targets → Q d → Q d'
  pub enqueues :
      (new : Text) (source : String) (via : Text) (now : ℕ) (d : Db)
      → Q d
      → Q (enqueue_statement new source via now d).1
  pub samples :
      (below : ℕ → ℕ → Bool) (pick bucket priority : ℕ) (trophies cap : ℤ) (now : ℕ) (d : Db)
      → Q d
      → Q (record d {
        targets = (sample_rows below pick tag bucket priority trophies cap now d.targets).1;
      })
  pub profiles :
      (priority : ℕ) (trophies : ℤ) (now : ℕ) (d : Db)
      → Q d
      → Q (record d {
        targets = update_where (has_tag tag) (profile_row priority trophies now) d.targets;
      })

module _ (e : Env) (tag : Text) (Q : Db → Type 0) (q : QueueRules e tag Q) where
  abbrev Fact : World → Type 0
  Fact w = Q w.db

  -- A statement that does not touch crawl_targets.
  pub elsewhere :
      {A : Type 0} (s : ℕ → Db → Result A × Db)
      → ((now : ℕ) (d : Db) → (s now d).1.targets ≡ d.targets)
      → Keeps Fact (exec e s)
  elsewhere s same =
      exec-keeps_db Q e s q.others (λ now d h. q.elsewhere d (s now d).1 (same now d) h)

  sample-keeps :
      (bucket priority : ℕ) (trophies cap : ℤ)
      → Keeps Fact (classify_and_sample_target e tag bucket priority trophies cap)
  unfolding classify_and_sample_target
  sample-keeps bucket priority trophies cap w h = ground (
    arith,
    q.others w.step w.db h,
    q.samples (e.below w.step) (e.pick w.step) bucket priority trophies cap (e.db_now w.step)
        (e.others w.step w.db),
  )

  profile-keeps :
      (priority : ℕ) (trophies : ℤ) → Keeps Fact (update_crawl_profile e tag priority trophies)
  unfolding update_crawl_profile
  profile-keeps priority trophies =
      exec-keeps_db Q e _ q.others (λ now d h. q.profiles priority trophies now d h)

  enqueue-keeps :
      (new : Text) (name source : String) (via : Text)
      → Keeps Fact (enqueue_discovered_player e new name source via)
  unfolding enqueue_discovered_player
  enqueue-keeps new name source via =
      bind-keeps Fact _ _ (elsewhere _ (λ now d. refl))
        (λ u. exec-keeps_db Q e _ q.others (λ now d h. q.enqueues new source via now d h))

  discover-keeps :
      (b : BattleIngestor) (new : Text) (name : String) (found : List Text)
      → Keeps Fact (discover_player e b new name found)
  unfolding discover_player try_enqueue
  discover-keeps b new name found w h = elim (Bool-cases (text_eq new b.discoverer_tag)) [
    | inl own ↦ rw (own, discover_player) h
    | inr another ↦ elim (Bool-cases (exhausted b.cfg w.discoveries)) [
      | inl full ↦ rw (another, discover_player) (rw (full) h)
      | inr room ↦
          rw (another, discover_player)
            (rw (room)
              (handle-keeps Fact _ _ _ (enqueue-keeps new name _ _) (λ x v q. q) counted w h))
    ]
  ]
    where
      counted : (fresh : Bool) → Keeps Fact (count_discovery new found fresh)
      counted true v q = q
      counted false v q = q

  conflict-keeps : (fp : Text) (x : Error) → Keeps Fact (after_conflict e fp x)
  unfolding battle_id_by_fingerprint
  conflict-keeps fp no_rows = bind-keeps Fact _ _ (elsewhere _ (λ now d. refl)) (λ id w h. h)
  conflict-keeps fp (api_error c p) = λ w h. h
  conflict-keeps fp global_halt = λ w h. h
  conflict-keeps fp other = λ w h. h

  battle-keeps : (p : BattleParams) → Keeps Fact (insert_battle e p)
  unfolding insert_battle insert_battle_statement
  battle-keeps p =
      handle-keeps Fact _ _ _ (elsewhere _ (λ now d. ground arith))
        (λ x. conflict-keeps p.fingerprint x) (λ id w h. h)

  battle_ops : (rt : Runtime) (b : BattleIngestor) → BattleOps Fact rt e b
  unfolding upsert_event patch_id_for_time insert_battle_team team_statement ensure_retired_brawler
      ensure_statement insert_battle_participant participant_statement
  battle_ops rt b = record {
    event = λ id mode map_name. elsewhere _ (λ now d. event-targets id mode map_name now d _);
    patch = λ t. elsewhere _ (λ now d. refl);
    battle = λ p. battle-keeps p;
    team = λ id i result. elsewhere _ (λ now d. team-targets id i result d _);
    brawler = λ id name. elsewhere _ (λ now d. ground arith);
    participant = λ p. elsewhere _ (λ now d. ground arith);
    discovery = λ new name found. discover-keeps b new name found;
  }

  snapshot-keeps : (p : PlayerSnapshotParams) → Keeps Fact (insert_player_snapshot e p)
  unfolding insert_player_snapshot snapshot_statement
  snapshot-keeps p =
      handle-keeps Fact _ _ _ (elsewhere _ (λ now d. ground arith)) zero (λ id w h. h)
    where
      zero : (x : Error) → Keeps Fact (zero_if_no_rows x)
      zero no_rows = λ w h. h
      zero (api_error c q) = λ w h. h
      zero global_halt = λ w h. h
      zero other = λ w h. h

  player_ops : PlayerOps Fact e
  unfolding upsert_player patch_id_for_time insert_player_brawler_snapshot
      brawler_snapshot_statement update_player_crawled
  player_ops = record {
    upsert = λ new name. elsewhere _ (λ now d. refl);
    patch = λ t. elsewhere _ (λ now d. refl);
    snapshot = λ p. snapshot-keeps p;
    brawler = λ p. elsewhere _ (λ now d. ground arith);
    crawled = λ new. elsewhere _ (λ now d. refl);
  }

-- The statements of a crawl before its finalization.
pub crawl_ops :
    (k : Worker) (claim : ClaimResult) (Q : Db → Type 0)
    → QueueRules k.env claim.player_tag Q
    → CrawlOps (λ w. Q w.db) k claim
unfolding ownership_valid ownership_statement active_target_count
crawl_ops k claim Q q =
    let tag = claim.player_tag in
    record {
      player = player_ops k.env tag Q q;
      battle = λ b. battle_ops k.env tag Q q k.runtime b;
      owner = λ w h. elsewhere k.env tag Q q _ (λ now d. refl) w h;
      active = elsewhere k.env tag Q q _ (λ now d. refl);
      profile = λ priority trophies. profile-keeps k.env tag Q q priority trophies;
      sample =
          λ bucket priority trophies cap. sample-keeps k.env tag Q q bucket priority trophies cap;
      step = λ w n h. h;
      counter = λ w n h. h;
    }
