-- ===== src/Collector/Repair.antt =====
-- collector/cmd/collector/main.go: the statements of runRepairShowdown where nothing fails.
pub mod Players
pub mod Complete
use brawl_stars_guide.Base.{
  ℕ, suc, ◌+◌, ◌≡◌, refl, sym, ap, ◌∙◌, subst, Bool, true, false, ◌&&◌, ◌||◌, not, Text, String,
  str_eq, Option, none, some, List, [], ◌∷◌, ◌++◌, ◌==◌, arith, Bool-cases, inl, inr, if◌then◌else◌,
  any_where, any-append_true, any-append_hit, any-weaken, keep_where, keep_where_none, order_by,
  All-unorder, All, All-weaken_rows, keep_where-All_back, ok, err, Result, ltb,
}
use brawl_stars_guide.Apiclient.Types.{BattleEntry, BattleParticipant}
use brawl_stars_guide.Storage.Schema.{Db, Battle, Participant, Brawler}
use brawl_stars_guide.Storage.Statement.{
  Env, World, M, Statement, settle, exec, handle, pure, return, ◌>>=◌, ◌>>◌,
}
use brawl_stars_guide.Storage.Statement.Keeps.{
  Keeps, Leads, handle-Leads, handle-keeps, bind-keeps, exec-keeps_db,
}
use brawl_stars_guide.Storage.Brawlers.{
  brawler_is, ensure_statement, ensure_retired_brawler, retired_brawler, placeholder_name,
}
use brawl_stars_guide.Storage.Battles.{
  participant_is, participant_statement, insert_battle_participant, brawler_known,
}
use brawl_stars_guide.Ingestion.Runtime.{Runtime}
use brawl_stars_guide.Ingestion.Battle.{ensure_brawler, flat_row}
use brawl_stars_guide.Collector.Commands.{
  is_deferred, deferred_battles, Repaired, one_inserted, repair_players, repair_battles,
  run_repair_showdown,
}

-- No statement fails, and nobody else writes to the database.
pub record Calm (e : Env) : Type 0 where
  pub up : (n : ℕ) → e.fails n ≡ false
  pub alone : (n : ℕ) (d : Db) → e.others n d ≡ d

pub Calm-exec :
    {A : Type 0} (e : Env) (s : Statement A) (w : World)
    → Calm e
    → exec e s w ≡ settle w w.db (s (e.db_now w.step) w.db)
unfolding exec
Calm-exec e s w calm = rw (calm.up w.step, exec) (rw (calm.alone w.step w.db) refl)

-- A statement that gives a value does what it says.
pub Calm-ok :
    {A : Type 0} (e : Env) (s : Statement A) (a : A) (w : World)
    → Calm e
    → (s (e.db_now w.step) w.db).0 ≡ ok a
    → ((exec e s w).0 ≡ ok a) × ((exec e s w).1.db ≡ (s (e.db_now w.step) w.db).1)
Calm-ok {A} e s a w calm h = rw (Calm-exec e s w calm) (settled (s (e.db_now w.step) w.db) h)
  where
    settled :
        (r : Result A × Db)
        → r.0 ≡ ok a
        → ((settle w w.db r).0 ≡ ok a) × ((settle w w.db r).1.db ≡ r.1)
    settled (ok b, d) t = (t, refl)
    settled (err x, d) t = absurd (cc)

-- A battle has a participant.
abbrev pub covered : ℕ → Db → Bool
covered id d = any_where (λ p. p.battle_id == id) d.participants

pub participant-covered :
    (id : ℕ) (p : Participant) (now : ℕ) (d : Db)
    → covered id d ≡ true
    → covered id (participant_statement p now d).1 ≡ true
unfolding participant_statement
participant-covered id p now d h =
    ground (arith, any-append_true (λ (q : Participant). q.battle_id == id) d.participants p h)

pub ensure-covered :
    (id n : ℕ) (name : String) (now : ℕ) (d : Db)
    → covered id (ensure_statement n name now d).1 ≡ covered id d
unfolding ensure_statement
ensure-covered id n name now d = ground arith

-- The first case of INSERT … ON CONFLICT DO NOTHING for a brawler, and the second.
ensure_statement-known :
    (n : ℕ) (name : String) (now : ℕ) (d : Db)
    → any_where (brawler_is n) (ensure_statement n name now d).1.brawlers ≡ true
unfolding ensure_statement
ensure_statement-known n name now d =
    ground (arith, any-append_hit (brawler_is n) d.brawlers (retired_brawler n name now))

ensure_statement-ok :
    (n : ℕ) (name : String) (now : ℕ) (d : Db) → (ensure_statement n name now d).0 ≡ ok tt
unfolding ensure_statement
ensure_statement-ok n name now d = ground arith

-- The row of a player meets its foreign key once the brawler has been ensured.
pub ensure-known :
    (rt : Runtime) (e : Env) (id : ℕ) (p : BattleParticipant) (w : World)
    → Calm e
    → ((ensure_brawler rt e p w).0 ≡ ok tt)
      × (brawler_known (ensure_brawler rt e p w).1.db (flat_row rt id p).brawler_id ≡ true)
unfolding ensure_brawler flat_row ensure_retired_brawler
ensure-known rt e id p w calm = elim (Bool-cases (p.brawler.id == 0)) [
  | inl zero ↦ (ground arith, ground arith)
  | inr some_id ↦
      (let statement =
          ensure_statement p.brawler.id
            (placeholder_name rt.show_brawler p.brawler.id p.brawler.name) in
        let (done, stored) =
          Calm-ok e statement tt w calm
            (ensure_statement-ok p.brawler.id _ (e.db_now w.step) w.db) in
        let there =
          ensure_statement-known p.brawler.id
            (placeholder_name rt.show_brawler p.brawler.id p.brawler.name) (e.db_now w.step) w.db in
        rw (some_id) (done, rw (stored) there))
]

pub participant_statement-covers :
    (p : Participant) (now : ℕ) (d : Db)
    → brawler_known d p.brawler_id ≡ true
    → covered p.battle_id (participant_statement p now d).1 ≡ true
unfolding participant_statement
participant_statement-covers p now d known = ground (
  arith,
  any-weaken (participant_is p.battle_id p.player_tag)
      (λ (q : Participant). q.battle_id == p.battle_id) d.participants (λ q h. ground arith),
  any-append_hit (λ (q : Participant). q.battle_id == p.battle_id) d.participants p,
)

pub participant_statement-ok :
    (p : Participant) (now : ℕ) (d : Db)
    → brawler_known d p.brawler_id ≡ true
    → (participant_statement p now d).0 ≡ ok tt
unfolding participant_statement
participant_statement-ok p now d known = ground arith

pub ensure-battles :
    (n : ℕ) (name : String) (now : ℕ) (d : Db)
    → (ensure_statement n name now d).1.battles ≡ d.battles
unfolding ensure_statement
ensure-battles n name now d = ground arith

pub participant-battles :
    (p : Participant) (now : ℕ) (d : Db) → (participant_statement p now d).1.battles ≡ d.battles
unfolding participant_statement
participant-battles p now d = ground arith

pub Calm-others : (Q : Db → Type 0) (e : Env) → Calm e → (n : ℕ) (d : Db) → Q d → Q (e.others n d)
Calm-others Q e calm n d q = rw (calm.alone n d) q

-- What every statement of the repair keeps of the database, the whole repair keeps.
module _ (Q : Db → Type 0) (rt : Runtime) (e : Env)
    (others : (n : ℕ) (d : Db) → Q d → Q (e.others n d))
    (ensure : (n : ℕ) (name : String) (now : ℕ) (d : Db)
      → Q d
      → Q (ensure_statement n name now d).1)
    (insert : (p : Participant) (now : ℕ) (d : Db)
      → Q d
      → Q (participant_statement p now d).1) where
  ensure_brawler-keeps : (p : BattleParticipant) → Keeps (λ w. Q w.db) (ensure_brawler rt e p)
  unfolding ensure_brawler ensure_retired_brawler
  ensure_brawler-keeps p w q = elim (Bool-cases (p.brawler.id == 0)) [
    | inl zero ↦ rw (zero) q
    | inr some_id ↦ rw (some_id) (exec-keeps_db Q e _ others (ensure p.brawler.id _) w q)
  ]

  repair_player-keeps :
      (id : ℕ) (p : BattleParticipant)
      → Keeps
          (λ w. Q w.db)
          (ensure_brawler rt e p >> insert_battle_participant e (flat_row rt id p))
  unfolding insert_battle_participant
  repair_player-keeps id p =
      bind-keeps (λ w. Q w.db) (ensure_brawler rt e p) _ (ensure_brawler-keeps p)
        (λ u. exec-keeps_db Q e _ others (insert (flat_row rt id p)))

  pub repair_players-keeps :
      (id : ℕ) (ps : List BattleParticipant) (c : Repaired)
      → Keeps (λ w. Q w.db) (repair_players rt e id ps c)
  unfolding repair_players
  repair_players-keeps id [] c = λ w q. q
  repair_players-keeps id (p ∷ ps) c =
      handle-keeps (λ w. Q w.db) _ _ _ (repair_player-keeps id p)
        (λ x. repair_players-keeps id ps c) (λ u. repair_players-keeps id ps (one_inserted c))

  pub repair_battles-keeps :
      (readable : BattleEntry → Bool) (bs : List Battle) (c : Repaired)
      → Keeps (λ w. Q w.db) (repair_battles rt e readable bs c)
  unfolding repair_battles
  repair_battles-keeps readable [] c w q = q
  repair_battles-keeps readable (b ∷ bs) c w q = elim (Bool-cases (readable b.raw_battle_data)) [
    | inl text ↦ rw (text) (
        bind-keeps (λ w. Q w.db) _ _ (repair_players-keeps b.id b.raw_battle_data.battle.players c)
          (λ r. repair_battles-keeps readable bs (record r { repaired = suc r.repaired })) w q)
    | inr other ↦ rw (other) (repair_battles-keeps readable bs c w q)
  ]
