-- ===== src/Ingestion/Battle/Stored.antt =====
-- ingestion/battle_ingestor.go: the rows that IngestBattle has stored when it returns without an error.
use brawl_stars_guide.Base.{
  ℕ, suc, Bool, true, ◌≡◌, refl, Text, String, List, [], ◌∷◌, Option, none, some, ok, arith, subst,
  any_where, find_where, view_of, All-append, find-append,
}
use brawl_stars_guide.Apiclient.Types.{BattleEntry, BattleData, BattleParticipant}
use brawl_stars_guide.Apiclient.Tags.{normalize_tag}
use brawl_stars_guide.Apiclient.Times.{parse_battle_time}
use brawl_stars_guide.Storage.Schema.{Participant}
use brawl_stars_guide.Storage.Statement.{Env, World}
use brawl_stars_guide.Storage.Statement.Ensures.{
  Ensures, handle-Ensures, bind-Ensures, bind-Ensures_at,
}
use brawl_stars_guide.Storage.Battles.{battle_is, participant_is}
use brawl_stars_guide.Ingestion.Runtime.{Runtime}
use brawl_stars_guide.Ingestion.Discovery.{BattleIngestor}
use brawl_stars_guide.Ingestion.Battle.{
  IngestResult, write_participant, write_team, write_teams, write_players, write_rows, write_battle,
  ingest_tags, ingest_battle, team_row, flat_row, battle_params, ingest_tags, ingest_battle,
}
use brawl_stars_guide.Ingestion.Battle.Effects.{
  BattleOps, team-keeps, teams-keeps, players-keeps, rows-keeps,
}
use brawl_stars_guide.Ingestion.Battle.Lasting.{Lasting, lasting_ops}
use brawl_stars_guide.Ingestion.Battle.Rows.{
  HasRow, HasBattle, KeepsRows, AllRows, player_rows, team_rows, row_tags, Stored, any-append,
  participant-Ensures, battle-Ensures, all-keeps,
}

module _ (rt : Runtime) (e : Env) (b : BattleIngestor) (k : KeepsRows e) where
  pub row_lasts :
      (id : ℕ) (tag : Text) → Lasting e (λ bs ps. any_where (participant_is id tag) ps ≡ true)
  row_lasts id tag = record {
    battle = λ bs ps x h. h;
    participant = λ bs ps x h. any-append (participant_is id tag) ps _ h;
    others = k.participants id tag;
  }

  pub battle_lasts :
      (fp : Text) (id : ℕ)
      → Lasting e (λ bs ps. view_of (λ x. x.id) (find_where (battle_is fp) bs) ≡ some id)
  battle_lasts fp id = record {
    battle = λ bs ps x h. find-append (battle_is fp) (λ y. y.id) bs _ id h;
    participant = λ bs ps x h. h;
    others = k.battles fp id;
  }

  row_ops : (id : ℕ) (tag : Text) → BattleOps (HasRow id tag) rt e b
  row_ops id tag = lasting_ops e _ (row_lasts id tag) rt b

  battle_ops : (fp : Text) (id : ℕ) → BattleOps (HasBattle fp id) rt e b
  battle_ops fp id = lasting_ops e _ (battle_lasts fp id) rt b

  write_participant-Ensures :
      (row : Participant) (p : BattleParticipant) (found : List Text)
      → Ensures (λ f. HasRow row.battle_id row.player_tag) (write_participant rt e b row p found)
  unfolding write_participant
  write_participant-Ensures row p found =
      bind-Ensures (λ u w. Unit) (λ f. HasRow row.battle_id row.player_tag) _ _ (λ w u eq. tt)
        (λ u v t.
          bind-Ensures (λ u. HasRow row.battle_id row.player_tag)
            (λ f. HasRow row.battle_id row.player_tag) _ _ (participant-Ensures e row)
            (λ u' v' has f eq.
              (row_ops row.battle_id row.player_tag).discovery row.player_tag p.name found v' has)
            v)

  players-Ensures :
      (id : ℕ) (ps : List BattleParticipant) (found : List Text)
      → Ensures (λ f. AllRows id (player_rows rt ps)) (write_players rt e b id ps found)
  unfolding write_players flat_row
  players-Ensures id [] found = λ w f eq. tt
  players-Ensures id (p ∷ ps) found =
      bind-Ensures (λ f. HasRow id (normalize_tag rt.wide p.tag))
        (λ f. AllRows id (player_rows rt (p ∷ ps))) _ _
        (write_participant-Ensures (flat_row rt id p) p found)
        (λ f v has g eq. (
          players-keeps (HasRow id (normalize_tag rt.wide p.tag)) rt e b (row_ops id _) id ps f v
              has,
          players-Ensures id ps f v g eq,
        ))

  team-Ensures :
      (id team_id : ℕ) (star : Option Text) (ps : List BattleParticipant) (found : List Text)
      → Ensures (λ f. AllRows id (player_rows rt ps)) (write_team rt e b id team_id star ps found)
  unfolding write_team team_row
  team-Ensures id team_id star [] found = λ w f eq. tt
  team-Ensures id team_id star (p ∷ ps) found =
      bind-Ensures (λ f. HasRow id (normalize_tag rt.wide p.tag))
        (λ f. AllRows id (player_rows rt (p ∷ ps))) _ _
        (write_participant-Ensures (team_row rt id team_id star p) p found)
        (λ f v has g eq. (
          team-keeps (HasRow id (normalize_tag rt.wide p.tag)) rt e b (row_ops id _) id team_id star
              ps f v has,
          team-Ensures id team_id star ps f v g eq,
        ))

  teams-Ensures :
      (id : ℕ) (star : Option Text) (results : List String) (i : ℕ)
      (teams : List (List BattleParticipant)) (found : List Text)
      → Ensures
          (λ f. AllRows id (team_rows rt teams))
          (write_teams rt e b id star results i teams found)
  unfolding write_teams team_rows
  teams-Ensures id star results i [] found = λ w f eq. tt
  teams-Ensures id star results i (team ∷ teams) found =
      bind-Ensures (λ t w. Unit) (λ f. AllRows id (team_rows rt (team ∷ teams))) _ _ (λ w u eq. tt)
        (λ team_id v t.
          bind-Ensures (λ f. AllRows id (player_rows rt team))
            (λ f. AllRows id (team_rows rt (team ∷ teams))) _ _
            (team-Ensures id team_id star team found)
            (λ f v' has g eq.
              All-append _ (player_rows rt team) _
                (all-keeps id (player_rows rt team)
                  (write_teams rt e b id star results (suc i) teams f)
                  (λ tag.
                    teams-keeps (HasRow id tag) rt e b (row_ops id tag) id star results (suc i)
                      teams f)
                  v' has)
                (teams-Ensures id star results (suc i) teams f v' g eq))
            v)

  rows-Ensures :
      (id : ℕ) (battle : BattleData) (teams : List (List BattleParticipant))
      (ps : List BattleParticipant)
      → Ensures (λ f. AllRows id (row_tags rt teams ps)) (write_rows rt e b id battle teams ps)
  unfolding write_rows
  rows-Ensures id battle [] [] = λ w f eq. absurd (cc)
  rows-Ensures id battle [] (p ∷ ps) = players-Ensures id (p ∷ ps) []
  rows-Ensures id battle (team ∷ teams) ps = teams-Ensures id _ _ 0 (team ∷ teams) []

  write_battle-Ensures :
      (entry : BattleEntry) (fp : Text) (time event_id : ℕ) (patch_id : Option ℕ)
      → Ensures (Stored rt entry) (write_battle rt e b entry fp time event_id patch_id)
  unfolding write_battle battle_params
  write_battle-Ensures entry fp time event_id patch_id =
      let battle = entry.battle in
      bind-Ensures (λ r. HasBattle fp r.battle_id) (Stored rt entry) _ _
        (battle-Ensures e (battle_params rt b entry fp time event_id patch_id))
        (λ r v has.
          bind-Ensures_at (λ f. Both r.battle_id) (Stored rt entry) _ _ v
            (λ found eq. (
              rows-keeps (HasBattle fp r.battle_id) rt e b (battle_ops fp r.battle_id) r.battle_id
                  battle battle.teams battle.players v has,
              rows-Ensures r.battle_id battle battle.teams battle.players v found eq,
            ))
            (λ f u both x eq. finished r.battle_id r.is_new f u x both eq))
    where
      Both : ℕ → World → Type 0
      Both id u =
          HasBattle fp id u × AllRows id (row_tags rt entry.battle.teams entry.battle.players) u

      finished :
          (id : ℕ) (new : Bool) (found : List Text) (u : World) (x : IngestResult)
          → Both id u
          → ok (record {
            fingerprint = fp;
            is_new = new;
            has_participant_rows = true;
            new_discoveries = found;
          })
            ≡ ok x
          → Stored rt entry x u
      finished id new found u x both eq =
          let same : fp ≡ x.fingerprint = ground arith in
          (id, subst (λ t. HasBattle t id u) same both.0, both.1)

  tags-Ensures :
      (entry : BattleEntry) (time : ℕ) (tags : List Text)
      → Ensures (Stored rt entry) (ingest_tags rt e b entry time tags)
  unfolding ingest_tags
  tags-Ensures entry time [] = λ w x eq. absurd (cc)
  tags-Ensures entry time (tag ∷ tags) =
      bind-Ensures (λ id w. Unit) (Stored rt entry) _ _ (λ w id eq. tt)
        (λ event_id v t.
          handle-Ensures (λ id w. Unit) (Stored rt entry) _ _ _ (λ w id eq. tt)
            (λ x. write_battle-Ensures entry _ time event_id none)
            (λ patch_id u t. write_battle-Ensures entry _ time event_id patch_id u) v)

-- When IngestBattle returns without an error, the battle is stored under the fingerprint that it
-- returns, and every player of the entry (of its teams, if it has any) has a row of that battle,
-- whether the battle was new or an earlier ingestion had stopped half way. Other transactions may
-- commit in between, as long as they keep the stored battles and participants.
pub ingest_battle-Stored :
    (rt : Runtime) (e : Env) (b : BattleIngestor) (entry : BattleEntry) (w : World)
    (r : IngestResult)
    → KeepsRows e
    → (ingest_battle rt e b entry w).0 ≡ ok r
    → (id : ℕ) × HasBattle r.fingerprint id (ingest_battle rt e b entry w).1
      × AllRows id
          (row_tags rt entry.battle.teams entry.battle.players)
          (ingest_battle rt e b entry w).1
unfolding ingest_battle
ingest_battle-Stored rt e b entry w r k done =
    go (parse_battle_time rt.parse_time entry.battle_time) refl
  where
    go :
        (t : Option ℕ)
        → parse_battle_time rt.parse_time entry.battle_time ≡ t
        → Stored rt entry r (ingest_battle rt e b entry w).1
    go none q = absurd (cc (rw (q, ingest_battle) at done))
    go (some time) q =
        rw (q, ingest_battle)
          (tags-Ensures rt e b k entry time _ w r (rw (q, ingest_battle) at done))
