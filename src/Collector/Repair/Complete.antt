-- ===== src/Collector/Repair/Complete.antt =====
-- collector/cmd/collector/main.go: what runRepairShowdown leaves behind.
use brawl_stars_guide.Base.{
  ℕ, suc, ◌≡◌, refl, sym, subst, ap, ◌∙◌, Bool, true, false, ◌&&◌, List, [], ◌∷◌, arith, Bool-cases,
  inl, inr, keep_where, keep_where_none, order_by, All-unorder, All, All-weaken_rows,
  keep_where-All_back, ok, err, ltb,
}
use brawl_stars_guide.Apiclient.Types.{BattleEntry, BattleParticipant}
use brawl_stars_guide.Storage.Schema.{Db, Battle}
use brawl_stars_guide.Storage.Statement.{Env, World, pure}
use brawl_stars_guide.Storage.Statement.Keeps.{after-ok}
use brawl_stars_guide.Ingestion.Runtime.{Runtime}
use brawl_stars_guide.Collector.Commands.{
  is_deferred, deferred_battles, Repaired, repair_players, repair_battles, run_repair_showdown,
}
use brawl_stars_guide.Collector.Repair.{
  Calm-others, ensure-battles, participant-battles, Calm, Calm-exec, covered, repair_battles-keeps,
}
use brawl_stars_guide.Collector.Repair.Players.{
  repair_players-ok, battles-keep, repair_players-cover,
}

-- A stored entry that is read back, and has a player.
abbrev pub repairable : (BattleEntry → Bool) → Battle → Bool
repairable readable b =
    readable b.raw_battle_data
    && elim b.raw_battle_data.battle.players [ [] ↦ false | p ∷ ps ↦ true ]

-- One battle of the loop.
repair_battles-step :
    (rt : Runtime) (e : Env) (readable : BattleEntry → Bool) (b : Battle) (bs : List Battle)
    (c : Repaired) (w : World)
    → Calm e
    → (d : Repaired) × ((v : World) × ((repair_battles rt e readable (b ∷ bs) c w
            ≡ repair_battles rt e readable bs d v)
          × (repairable readable b ≡ true → covered b.id v.db ≡ true)))
unfolding repair_battles
repair_battles-step rt e readable b bs c w calm = elim (Bool-cases (readable b.raw_battle_data)) [
  | inl text ↦
      let players = b.raw_battle_data.battle.players in
      let (r, done) = repair_players-ok rt e b.id players c w in
      (
        record r { repaired = suc r.repaired },
        (
          (repair_players rt e b.id players c w).1,
          (
            rw (text) (after-ok (repair_players rt e b.id players c) _ _ r w done),
            λ h. first players (ground arith),
          ),
        ),
      )
  | inr none_read ↦ (c, (w, (rw (none_read) refl, λ h. absurd (ground arith))))
]
  where
    first :
        (ps : List BattleParticipant)
        → elim ps [ [] ↦ false | p ∷ qs ↦ true ] ≡ true
        → covered b.id (repair_players rt e b.id ps c w).1.db ≡ true
    first [] h = absurd (cc)
    first (p ∷ ps) h = repair_players-cover rt e calm b.id p ps c w

repair_battles-cover :
    (rt : Runtime) (e : Env) (readable : BattleEntry → Bool) (bs : List Battle) (c : Repaired)
    (w : World)
    → Calm e
    → All
        (λ b.
          repairable readable b ≡ true
          → covered b.id (repair_battles rt e readable bs c w).1.db ≡ true)
        bs
repair_battles-cover rt e readable [] c w calm = tt
repair_battles-cover rt e readable (b ∷ bs) c w calm =
    let (d, (v, (same, here))) = repair_battles-step rt e readable b bs c w calm in
    (
      rw (same) (λ h. battles-keep rt e calm b.id readable bs d v (here h)),
      subst (λ r. All (λ a. repairable readable a ≡ true → covered a.id r.1.db ≡ true) bs)
          (sym same) (repair_battles-cover rt e readable bs d v calm),
    )

deferred-is :
    (e : Env) (w : World)
    → Calm e
    → deferred_battles e w ≡ (
      ok (order_by (λ a b. ltb a.id b.id) (keep_where (is_deferred w.db) w.db.battles)),
      record w { step = suc w.step },
    )
unfolding deferred_battles
deferred-is e w calm = Calm-exec e _ w calm

-- What is left to do after the repair, for a battle that was there before it.
nothing_left :
    (readable : BattleEntry → Bool) (d after : Db) (b : Battle)
    → (covered b.id d ≡ true → covered b.id after ≡ true)
    → (is_deferred d b ≡ true → repairable readable b ≡ true → covered b.id after ≡ true)
    → (is_deferred after b && repairable readable b) ≡ false
nothing_left readable d after b kept written = ground arith

nothing_remains :
    (readable : BattleEntry → Bool) (d after : Db)
    → after.battles ≡ d.battles
    → ((id : ℕ) → covered id d ≡ true → covered id after ≡ true)
    → All
        (λ b. repairable readable b ≡ true → covered b.id after ≡ true)
        (order_by (λ a b. ltb a.id b.id) (keep_where (is_deferred d) d.battles))
    → keep_where (λ b. is_deferred after b && repairable readable b) after.battles ≡ []
nothing_remains readable d after same kept written =
    let deferred = All-unorder _ _ (keep_where (is_deferred d) d.battles) written in
    rw (same) (
      keep_where_none _ d.battles (
        All-weaken_rows _ (λ b. (is_deferred after b && repairable readable b) ≡ false) d.battles
          (λ b later. nothing_left readable d after b (kept b.id) later)
          (keep_where-All_back _ (is_deferred d) d.battles deferred)))

-- Where no statement fails and nobody else writes, runRepairShowdown leaves no Solo Showdown battle
-- without participant rows, but those whose stored entry is not read back or has no players.
pub run_repair_showdown_complete :
    (rt : Runtime) (e : Env) (readable : BattleEntry → Bool) (w : World)
    → Calm e
    → let after = (run_repair_showdown rt e readable w).1.db in
      keep_where (λ b. is_deferred after b && repairable readable b) after.battles ≡ []
unfolding run_repair_showdown
run_repair_showdown_complete rt e readable w calm =
    let bs = order_by (λ a b. ltb a.id b.id) (keep_where (is_deferred w.db) w.db.battles) in
    let v : World = record w { step = suc w.step } in
    let none_yet : Repaired = record { repaired = 0; inserted = 0 } in
    rw
      (after-ok (deferred_battles e) (λ x. pure (err x))
        (λ bs. repair_battles rt e readable bs none_yet) bs w
        (ap (λ r. r.0) (deferred-is e w calm)))
      (rw (deferred-is e w calm) (
        nothing_remains readable w.db (repair_battles rt e readable bs none_yet v).1.db same
          (λ id. battles-keep rt e calm id readable bs none_yet v)
          (repair_battles-cover rt e readable bs none_yet v calm)))
  where
    same :
        (repair_battles rt e readable
          (order_by (λ a b. ltb a.id b.id) (keep_where (is_deferred w.db) w.db.battles))
          (record { repaired = 0; inserted = 0 })
          (record w { step = suc w.step })).1.db.battles
        ≡ w.db.battles
    same =
        repair_battles-keeps (λ d. d.battles ≡ w.db.battles) rt e (Calm-others _ e calm)
          (λ n name now d q. ensure-battles n name now d ∙ q)
          (λ p now d q. participant-battles p now d ∙ q) readable _ _ _ refl
