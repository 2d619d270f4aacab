-- ===== src/Ingestion/Battle/Entries.antt =====
-- ingestion/battle_ingestor.go: an entry of a battle log as it is stored, under its own fingerprint.
use brawl_stars_guide.Base.{ℕ, ◌≡◌, refl, subst, Text, List, [], ◌∷◌, Option, none, some, arith}
use brawl_stars_guide.Apiclient.Types.{BattleEntry}
use brawl_stars_guide.Apiclient.Times.{parse_battle_time}
use brawl_stars_guide.Storage.Statement.{Env, World}
use brawl_stars_guide.Storage.Statement.Ensures.{Ensures, handle-Ensures, bind-Ensures}
use brawl_stars_guide.Ingestion.Runtime.{Runtime}
use brawl_stars_guide.Ingestion.Discovery.{BattleIngestor}
use brawl_stars_guide.Ingestion.Battle.{
  IngestResult, collect_participant_tags, fingerprint_of, write_battle, ingest_tags, ingest_battle,
}
use brawl_stars_guide.Ingestion.Battle.Rows.{HasBattle, AllRows, row_tags, KeepsRows}
use brawl_stars_guide.Ingestion.Battle.Stored.{ingest_battle-Stored}

-- The entry's time can be read, its battle is stored under the fingerprint of the time, the event and
-- the tags, and each of its players has a row of that battle.
abbrev pub EntryStored : Runtime → BattleEntry → World → Type 0
EntryStored rt entry w =
    (time : ℕ) × (id : ℕ) × (parse_battle_time rt.parse_time entry.battle_time ≡ some time)
    × HasBattle (fingerprint_of rt entry time (collect_participant_tags entry.battle)) id w
    × AllRows id (row_tags rt entry.battle.teams entry.battle.players) w

module _ (rt : Runtime) (e : Env) (b : BattleIngestor) (entry : BattleEntry) where
  write_battle-fingerprint :
      (fp : Text) (time event_id : ℕ) (patch_id : Option ℕ)
      → Ensures (λ r w. r.fingerprint ≡ fp) (write_battle rt e b entry fp time event_id patch_id)
  unfolding write_battle
  write_battle-fingerprint fp time event_id patch_id =
      bind-Ensures (λ r w. Unit) (λ r w. r.fingerprint ≡ fp) _ _ (λ w r eq. tt)
        (λ r v t.
          bind-Ensures (λ f w. Unit) (λ r w. r.fingerprint ≡ fp) _ _ (λ w f eq. tt)
            (λ f u s x eq. ground arith) v)

  ingest_tags-fingerprint :
      (time : ℕ) (tags : List Text)
      → Ensures
          (λ r w. r.fingerprint ≡ fingerprint_of rt entry time tags)
          (ingest_tags rt e b entry time tags)
  unfolding ingest_tags
  ingest_tags-fingerprint time [] = λ w r eq. absurd (cc)
  ingest_tags-fingerprint time (tag ∷ tags) =
      let Same : IngestResult → World → Type 0 =
        λ r w. r.fingerprint ≡ fingerprint_of rt entry time (tag ∷ tags) in
      bind-Ensures (λ id w. Unit) Same _ _ (λ w id eq. tt)
        (λ id v t.
          handle-Ensures (λ p w. Unit) Same _ _ _ (λ w p eq. tt)
            (λ x. write_battle-fingerprint _ time id none)
            (λ p u s. write_battle-fingerprint _ time id p u) v)

  -- What IngestBattle has stored when it returns without an error.
  pub ingest_battle-EntryStored :
      KeepsRows e → Ensures (λ r. EntryStored rt entry) (ingest_battle rt e b entry)
  unfolding ingest_battle
  ingest_battle-EntryStored keeps w r done =
      go (parse_battle_time rt.parse_time entry.battle_time) refl
    where
      go :
          (t : Option ℕ)
          → parse_battle_time rt.parse_time entry.battle_time ≡ t
          → EntryStored rt entry (ingest_battle rt e b entry w).1
      go none q = absurd (cc (rw (q, ingest_battle) at done))
      go (some time) q =
          let (id, has, rows) = ingest_battle-Stored rt e b entry w r keeps done in
          (
            time,
            id,
            q,
            subst (λ fp. HasBattle fp id (ingest_battle rt e b entry w).1)
                (ingest_tags-fingerprint time _ w r (rw (q, ingest_battle) at done)) has,
            rows,
          )
