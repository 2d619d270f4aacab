-- ===== src/Collector/Repair/Players.antt =====
-- collector/cmd/collector/main.go: the rows that runRepairShowdown writes for one battle.
use brawl_stars_guide.Base.{ℕ, ◌≡◌, refl, ◌∙◌, Bool, true, String, List, [], ◌∷◌, Result, ok, err}
use brawl_stars_guide.Apiclient.Types.{BattleEntry, BattleParticipant}
use brawl_stars_guide.Storage.Schema.{Db, Battle, Participant}
use brawl_stars_guide.Storage.Statement.{Env, World, handle, branch, pure, ◌>>◌}
use brawl_stars_guide.Storage.Statement.Keeps.{Keeps, handle-Leads, after-ok}
use brawl_stars_guide.Storage.Brawlers.{ensure_statement}
use brawl_stars_guide.Storage.Battles.{
  brawler_known, participant_statement, insert_battle_participant,
}
use brawl_stars_guide.Ingestion.Runtime.{Runtime}
use brawl_stars_guide.Ingestion.Battle.{ensure_brawler, flat_row}
use brawl_stars_guide.Collector.Commands.{Repaired, one_inserted, repair_players, repair_battles}
use brawl_stars_guide.Collector.Repair.{
  Calm-others, Calm, Calm-ok, covered, participant-covered, ensure-covered, ensure-known,
  participant_statement-covers, participant_statement-ok, repair_players-keeps,
  repair_battles-keeps,
}

insert-covers :
    (e : Env) (row : Participant) (w : World)
    → Calm e
    → brawler_known w.db row.brawler_id ≡ true
    → covered row.battle_id (insert_battle_participant e row w).1.db ≡ true
unfolding insert_battle_participant
insert-covers e row w calm known =
    let now = e.db_now w.step in
    let (done, stored) =
      Calm-ok e (participant_statement row) tt w calm
        (participant_statement-ok row now w.db known) in
    rw (stored) (participant_statement-covers row now w.db known)

-- The rows of one player.
repair_player-covers :
    (rt : Runtime) (e : Env) (id : ℕ) (p : BattleParticipant) (w : World)
    → Calm e
    → covered id ((ensure_brawler rt e p >> insert_battle_participant e (flat_row rt id p)) w).1.db
      ≡ true
unfolding flat_row
repair_player-covers rt e id p w calm =
    let (done, known) = ensure-known rt e id p w calm in
    rw
      (after-ok (ensure_brawler rt e p) (λ x. pure (err x))
        (λ u. insert_battle_participant e (flat_row rt id p)) tt w done)
      (insert-covers e (flat_row rt id p) (ensure_brawler rt e p w).1 calm known)

-- A battle that has a participant keeps one.
module _ (rt : Runtime) (e : Env) (calm : Calm e) (id : ℕ) where
  ensure_kept :
      (n : ℕ) (name : String) (now : ℕ) (d : Db)
      → covered id d ≡ true
      → covered id (ensure_statement n name now d).1 ≡ true
  ensure_kept n name now d h = ensure-covered id n name now d ∙ h

  players-keep :
      (other_id : ℕ) (ps : List BattleParticipant) (c : Repaired)
      → Keeps (λ w. covered id w.db ≡ true) (repair_players rt e other_id ps c)
  players-keep =
      repair_players-keeps (λ d. covered id d ≡ true) rt e (Calm-others _ e calm) ensure_kept
        (participant-covered id)

  pub battles-keep :
      (readable : BattleEntry → Bool) (bs : List Battle) (c : Repaired)
      → Keeps (λ w. covered id w.db ≡ true) (repair_battles rt e readable bs c)
  battles-keep =
      repair_battles-keeps (λ d. covered id d ≡ true) rt e (Calm-others _ e calm) ensure_kept
        (participant-covered id)

  pub repair_players-cover :
      (p : BattleParticipant) (ps : List BattleParticipant) (c : Repaired) (w : World)
      → covered id (repair_players rt e id (p ∷ ps) c w).1.db ≡ true
  unfolding repair_players
  repair_players-cover p ps c w =
      handle-Leads (λ v. v ≡ w) (λ v. covered id v.db ≡ true) (λ v. covered id v.db ≡ true)
        (ensure_brawler rt e p >> insert_battle_participant e (flat_row rt id p)) _ _
        (λ v q. repair_player-covers rt e id p v calm) (λ x. players-keep id ps c)
        (λ u. players-keep id ps (one_inserted c)) w refl

-- The loop over the players gives its counters, whatever fails.
pub repair_players-ok :
    (rt : Runtime) (e : Env) (id : ℕ) (ps : List BattleParticipant) (c : Repaired) (w : World)
    → (r : Repaired) × ((repair_players rt e id ps c w).0 ≡ ok r)
unfolding repair_players handle
repair_players-ok rt e id [] c w = (c, refl)
repair_players-ok rt e id (p ∷ ps) c w =
    each ((ensure_brawler rt e p >> insert_battle_participant e (flat_row rt id p)) w)
      (repair_players-ok rt e id ps c) (repair_players-ok rt e id ps (one_inserted c))
  where
    each :
        (x : Result (Unit {0}) × World)
        → ((v : World) → (r : Repaired) × ((repair_players rt e id ps c v).0 ≡ ok r))
        → ((v : World) → (r : Repaired) × ((repair_players rt e id ps (one_inserted c) v).0 ≡ ok r))
        → (r : Repaired) × ((branch
              (λ y. repair_players rt e id ps c)
              (λ u. repair_players rt e id ps (one_inserted c))
              x).0
            ≡ ok r)
    each (ok u, v) failed done = done v
    each (err y, v) failed done = failed v
