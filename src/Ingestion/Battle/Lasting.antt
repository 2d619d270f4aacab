-- ===== src/Ingestion/Battle/Lasting.antt =====
-- ingestion/battle_ingestor.go: facts about stored battles and participants over IngestBattle.
use brawl_stars_guide.Base.{
  ℕ, Bool, true, false, ◌≡◌, refl, Text, String, List, [], ◌∷◌, ◌++◌, Option, none, some, Error,
  no_rows, api_error, global_halt, other, Bool-cases, inl, inr, arith, sym, subst, text_eq,
}
use brawl_stars_guide.Storage.Schema.{Db, Participant, Battle, Event, BattleTeam}
use brawl_stars_guide.Storage.Statement.{Env, World, Statement, exec}
use brawl_stars_guide.Storage.Statement.Keeps.{Keeps, exec-keeps_db, handle-keeps, bind-keeps}
use brawl_stars_guide.Storage.Players.{enqueue_discovered_player, enqueue_statement}
use brawl_stars_guide.Storage.Brawlers.{ensure_retired_brawler, ensure_statement}
use brawl_stars_guide.Storage.Patches.{patch_id_for_time}
use brawl_stars_guide.Storage.Battles.{
  BattleParams, upsert_event, upsert_event_row, insert_battle_team, team_statement, upsert_team_row,
  participant_statement, insert_battle_participant, insert_battle_statement, insert_battle,
  battle_id_by_fingerprint, after_conflict, battle_row,
}
use brawl_stars_guide.Ingestion.Runtime.{Runtime}
use brawl_stars_guide.Ingestion.Discovery.{
  BattleIngestor, discover_player, try_enqueue, exhausted, count_discovery,
}
use brawl_stars_guide.Ingestion.Battle.Effects.{BattleOps}

-- Facts about the stored battles and participants that further rows do not change.
pub record Lasting (e : Env) (Q : List Battle → List Participant → Type 0) : Type 0 where
  pub battle :
      (bs : List Battle) (ps : List Participant) (b : Battle) → Q bs ps → Q (bs ++ b ∷ []) ps
  pub participant :
      (bs : List Battle) (ps : List Participant) (p : Participant) → Q bs ps → Q bs (ps ++ p ∷ [])
  pub others :
      (n : ℕ) (d : Db)
      → Q d.battles d.participants
      → Q (e.others n d).battles (e.others n d).participants

module _ (e : Env) (Q : List Battle → List Participant → Type 0) (l : Lasting e Q) where
  abbrev pub Fact : World → Type 0
  Fact w = Q w.db.battles w.db.participants

  abbrev FactDb : Db → Type 0
  FactDb d = Q d.battles d.participants

  pub elsewhere :
      {A : Type 0} (s : Statement A)
      → ((now : ℕ) (d : Db)
          → ((s now d).1.battles ≡ d.battles) × ((s now d).1.participants ≡ d.participants))
      → Keeps Fact (exec e s)
  elsewhere s same =
      exec-keeps_db FactDb e s l.others
        (λ now d h. cast _ _ _ _ (sym (same now d).0) (sym (same now d).1) h)
    where
      cast :
          (bs bs' : List Battle) (ps ps' : List Participant)
          → bs ≡ bs'
          → ps ≡ ps'
          → Q bs ps
          → Q bs' ps'
      cast bs bs' ps ps' eb ep h = subst (λ x. Q x ps') eb (subst (λ x. Q bs x) ep h)

  event-same :
      (id : ℕ) (mode map_name : String) (now : ℕ) (d : Db) (o : Option Event)
      → ((upsert_event_row id mode map_name now d o).1.battles ≡ d.battles)
        × ((upsert_event_row id mode map_name now d o).1.participants ≡ d.participants)
  event-same id mode map_name now d none = (refl, refl)
  event-same id mode map_name now d (some v) = (refl, refl)

  team-same :
      (id i : ℕ) (result : String) (d : Db) (o : Option BattleTeam)
      → ((upsert_team_row id i result d o).1.battles ≡ d.battles)
        × ((upsert_team_row id i result d o).1.participants ≡ d.participants)
  team-same id i result d none = (refl, refl)
  team-same id i result d (some t) = (refl, refl)

  enqueue-keeps :
      (new : Text) (name source : String) (via : Text)
      → Keeps Fact (enqueue_discovered_player e new name source via)
  unfolding enqueue_discovered_player enqueue_statement
  enqueue-keeps new name source via =
      bind-keeps Fact _ _ (elsewhere _ (λ now d. (refl, refl)))
        (λ u. elsewhere _ (λ now d. (ground arith, ground arith)))

  discover-keeps :
      (b : BattleIngestor) (new : Text) (name : String) (found : List Text)
      → Keeps Fact (discover_player e b new name found)
  unfolding discover_player try_enqueue
  discover-keeps b new name found w h = elim (Bool-cases (text_eq new b.discoverer_tag)) [
    | inl own ↦ rw (own, discover_player) h
    | inr another ↦ elim (Bool-cases (exhausted b.cfg w.discoveries)) [
      | inl full ↦ rw (another, discover_player) (rw (full) h)
      | inr room ↦
          rw (another, discover_player)
            (rw (room)
              (handle-keeps Fact _ _ _ (enqueue-keeps new name _ _) (λ x v q. q) counted w h))
    ]
  ]
    where
      counted : (fresh : Bool) → Keeps Fact (count_discovery new found fresh)
      counted true v q = q
      counted false v q = q

  conflict-keeps : (fp : Text) (x : Error) → Keeps Fact (after_conflict e fp x)
  unfolding battle_id_by_fingerprint
  conflict-keeps fp no_rows =
      bind-keeps Fact _ _ (elsewhere _ (λ now d. (refl, refl))) (λ id w h. h)
  conflict-keeps fp (api_error c p) = λ w h. h
  conflict-keeps fp global_halt = λ w h. h
  conflict-keeps fp other = λ w h. h

  battle-keeps : (p : BattleParams) → Keeps Fact (insert_battle e p)
  unfolding insert_battle insert_battle_statement
  battle-keeps p =
      handle-keeps Fact _ _ _
        (exec-keeps_db FactDb e _ l.others
          (λ now d h. ground (arith, l.battle d.battles d.participants (battle_row d.next_id p))))
        (λ x. conflict-keeps p.fingerprint x) (λ id w h. h)

  pub lasting_ops : (rt : Runtime) (b : BattleIngestor) → BattleOps Fact rt e b
  unfolding upsert_event patch_id_for_time insert_battle_team team_statement ensure_retired_brawler
      ensure_statement insert_battle_participant participant_statement
  lasting_ops rt b = record {
    event = λ id mode map_name. elsewhere _ (λ now d. event-same id mode map_name now d _);
    patch = λ t. elsewhere _ (λ now d. (refl, refl));
    battle = battle-keeps;
    team = λ id i result. elsewhere _ (λ now d. team-same id i result d _);
    brawler = λ id name. elsewhere _ (λ now d. (ground arith, ground arith));
    participant = λ p.
        exec-keeps_db FactDb e _ l.others
          (λ now d h. ground (arith, l.participant d.battles d.participants p));
    discovery = discover-keeps b;
  }
