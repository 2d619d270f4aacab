-- ===== src/Crawler/Worker/Keys.antt =====
-- crawler/worker.go: the keys of the tables over RunOnce.
use brawl_stars_guide.Base.{
  ℕ, refl, Bool-cases, inl, inr, Text, ℤ, any_where, ◌==◌, Error, no_rows, api_error, global_halt,
  other,
}
use brawl_stars_guide.Storage.Schema.{Db}
use brawl_stars_guide.Storage.Statement.{Env, World}
use brawl_stars_guide.Storage.Statement.Keeps.{Keeps, handle-keeps}
use brawl_stars_guide.Storage.Crawl.{
  FinalizeParams, claim_next_target, finalize_crawl, ownership_valid, ownership_statement, has_tag,
}
use brawl_stars_guide.Storage.Sampling.{
  classify_and_sample_target, update_crawl_profile, active_target_count, profile_row,
}
use brawl_stars_guide.Storage.Players.{
  PlayerSnapshotParams, BrawlerSnapshotParams, upsert_player, update_player_crawled,
  insert_player_snapshot, insert_player_brawler_snapshot, snapshot_statement, snapshot_key,
  brawler_snapshot_statement, brawler_snapshot_key, player_is, zero_if_no_rows,
}
use brawl_stars_guide.Storage.Patches.{patch_id_for_time}
use brawl_stars_guide.Storage.Consistency.{Consistent, other_tables}
use brawl_stars_guide.Storage.Consistency.Updates.{
  claim-Consistent, finalize-Consistent, update_targets-Consistent, targets-Consistent,
  sample_rows-OneEach,
}
use brawl_stars_guide.Ingestion.Battle.Consistency.{Respectful, Sound, by_statement, key_ops}
use brawl_stars_guide.Ingestion.Player.Effects.{PlayerOps}
use brawl_stars_guide.Crawler.Worker.{Worker, run_once}
use brawl_stars_guide.Crawler.Worker.Whole.{run_once-keeps}

snapshot-Consistent :
    (p : PlayerSnapshotParams) (now : ℕ) (d : Db)
    → Consistent d
    → Consistent (snapshot_statement p now d).1
unfolding snapshot_statement
snapshot-Consistent p now d h =
    elim (Bool-cases (any_where (snapshot_key p.player_tag p.snapshot_at) d.snapshots)) [
      | inl old ↦ rw (old, snapshot_statement) h
      | inr new ↦ elim (Bool-cases (any_where (player_is p.player_tag) d.players)) [
        | inl there ↦ rw (new, snapshot_statement) (rw (there) (other_tables d _ _ _ _ _ _ h))
        | inr lost ↦ rw (new, snapshot_statement) (rw (lost) h)
      ]
    ]

brawler_snapshot-Consistent :
    (p : BrawlerSnapshotParams) (now : ℕ) (d : Db)
    → Consistent d
    → Consistent (brawler_snapshot_statement p now d).1
unfolding brawler_snapshot_statement
brawler_snapshot-Consistent p now d h =
    elim (Bool-cases
      (any_where (brawler_snapshot_key p.snapshot_id p.brawler_id) d.brawler_snapshots)) [
        | inl old ↦ rw (old, brawler_snapshot_statement) h
        | inr new ↦ elim (Bool-cases (any_where (λ b. b.id == p.brawler_id) d.brawlers)) [
          | inl there ↦
              rw (new, brawler_snapshot_statement) (rw (there) (other_tables d _ _ _ _ _ _ h))
          | inr lost ↦ rw (new, brawler_snapshot_statement) (rw (lost) h)
        ]
      ]

module _ (e : Env) (respect : Respectful e) where
  zero-Sound : (x : Error) → Keeps Sound (zero_if_no_rows x)
  zero-Sound no_rows = λ w h. h
  zero-Sound (api_error c p) = λ w h. h
  zero-Sound global_halt = λ w h. h
  zero-Sound other = λ w h. h

  pub player_ops : PlayerOps Sound e
  unfolding upsert_player update_player_crawled insert_player_snapshot
      insert_player_brawler_snapshot patch_id_for_time
  player_ops = record {
    upsert = λ tag name. by_statement e respect _ (λ now d h. other_tables d _ _ _ _ _ _ h);
    patch = λ t. by_statement e respect _ (λ now d h. h);
    snapshot = λ p.
        handle-keeps Sound _ _ _ (by_statement e respect _ (snapshot-Consistent p)) zero-Sound
          (λ id w h. h);
    brawler = λ p. by_statement e respect _ (brawler_snapshot-Consistent p);
    crawled = λ tag. by_statement e respect _ (λ now d h. other_tables d _ _ _ _ _ _ h);
  }

  sample-Sound :
      (tag : Text) (bucket priority : ℕ) (trophies cap : ℤ)
      → Keeps Sound (classify_and_sample_target e tag bucket priority trophies cap)
  unfolding classify_and_sample_target
  sample-Sound tag bucket priority trophies cap w h = elim (Bool-cases (e.fails w.step)) [
    | inl bad ↦ rw (bad, classify_and_sample_target) before
    | inr good ↦ elim (Bool-cases (e.commit_fails w.step)) [
      | inl lost ↦ rw (good, classify_and_sample_target) (rw (lost) before)
      | inr done ↦
          rw (good, classify_and_sample_target)
            (rw (done) (
              targets-Consistent (e.others w.step w.db) _
                (sample_rows-OneEach (e.below w.step) (e.pick w.step) tag bucket priority trophies
                  cap (e.db_now w.step) (e.others w.step w.db).targets before.targets)
                before))
    ]
  ]
    where
      before : Consistent (e.others w.step w.db)
      before = respect w.step w.db h

  claim-Sound : Keeps Sound (claim_next_target e)
  unfolding claim_next_target
  claim-Sound w h = by_statement e respect _ (claim-Consistent (e.locked w.step)) w h

  finalize-Sound : (p : FinalizeParams) → Keeps Sound (finalize_crawl e p)
  unfolding finalize_crawl
  finalize-Sound p = by_statement e respect _ (finalize-Consistent p)

  owner-Sound : (tag : Text) (generation : ℕ) → Keeps Sound (ownership_valid e tag generation)
  unfolding ownership_valid ownership_statement
  owner-Sound tag generation w h = by_statement e respect _ (λ now d k. k) w h

  profile-Sound :
      (tag : Text) (priority : ℕ) (trophies : ℤ)
      → Keeps Sound (update_crawl_profile e tag priority trophies)
  unfolding update_crawl_profile
  profile-Sound tag priority trophies = by_statement e respect _ (λ now d h.
      update_targets-Consistent (has_tag tag) (profile_row priority trophies now) d (λ r. refl) h)

  active-Sound : Keeps Sound (active_target_count e)
  unfolding active_target_count
  active-Sound = by_statement e respect _ (λ now d h. h)

-- RunOnce keeps the tables consistent on every path, whichever of its statements or calls fail, and
-- however it ends: no fingerprint is stored twice, no participant twice for a battle, no target twice for
-- a tag, no brawler twice for an id, and every participant's brawler is in the reference table; the
-- transactions of others are assumed to do so.
pub run_once-Consistent :
    (k : Worker) (w : World) → Respectful k.env → Consistent w.db → Consistent (run_once k w).1.db
run_once-Consistent k w respect h =
    run_once-keeps Sound k (claim-Sound k.env respect)
      (λ claim. record {
        player = player_ops k.env respect;
        battle = λ b. key_ops k.runtime k.env b respect;
        owner = owner-Sound k.env respect claim.player_tag claim.generation;
        active = active-Sound k.env respect;
        profile = profile-Sound k.env respect claim.player_tag;
        sample = sample-Sound k.env respect claim.player_tag;
        step = λ v n c. c;
        counter = λ v n c. c;
      })
      (finalize-Sound k.env respect) w h
