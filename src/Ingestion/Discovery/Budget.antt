-- ===== src/Ingestion/Discovery/Budget.antt =====
-- ingestion/battle_ingestor.go: the budget of discoveries and what a discovery inserts.
use brawl_stars_guide.Base.{
  ℕ, suc, ◌+◌, ◌≤◌, ◌≡◌, refl, sym, subst, Bool, true, false, Text, text_eq, String, List, [], ◌∷◌,
  ◌++◌, pos, ◌<◌, arith, Bool-cases, inl, inr, Error, Result, ok, err, count_where, any_where,
}
use brawl_stars_guide.Storage.Schema.{Db, Target}
use brawl_stars_guide.Storage.Statement.{Env, World, M, Statement, exec, branch, handle, pure}
use brawl_stars_guide.Storage.Statement.Keeps.{Keeps, Leads, exec-keeps, exec-keeps_db}
use brawl_stars_guide.Storage.Crawl.{has_tag}
use brawl_stars_guide.Storage.Players.{
  enqueue_discovered_player, enqueue_statement, player_is, new_target,
}
use brawl_stars_guide.Ingestion.Discovery.{
  BattleIngestor, exhausted, count_discovery, try_enqueue, discover_player,
}

-- How many targets the player has discovered.
abbrev pub discovered : Text → Db → ℕ
discovered by d = count_where (λ r. text_eq r.discovery_via_player by) d.targets

-- What follows a call that keeps P, whether it fails or not.
bind_cases :
    {A B : Type 0} (P : World → Type 0) (T : Result B → World → Type 0) (m : M A) (k : A → M B)
    → Keeps P m
    → ((x : Error) (w : World) → P w → T (err x) w)
    → ((a : A) (w : World) → P w → T (k a w).0 (k a w).1)
    → (w : World) → P w
    → T (handle m (λ x. pure (err x)) k w).0 (handle m (λ x. pure (err x)) k w).1
unfolding handle
bind_cases {A} P T m k keeps fails goes w p = go (m w) (keeps w p)
  where
    go :
        (r : Result A × World)
        → P r.1
        → T (branch (λ x. pure (err x)) k r).0 (branch (λ x. pure (err x)) k r).1
    go (ok a, v) q = goes a v q
    go (err x, v) q = fails x v q

count-snoc :
    (p : Target → Bool) (rows : List Target) (x : Target)
    → count_where p (rows ++ x ∷ []) ≤ suc (count_where p rows)
unfolding count_where
count-snoc p [] x = ground arith
count-snoc p (r ∷ rows) x = ground (arith, count-snoc p rows x)

-- No statement touches the counter.
exec-counter :
    {A : Type 0} (P : ℕ → Type 0) (e : Env) (s : Statement A)
    → Keeps (λ w. P w.discoveries) (exec e s)
exec-counter P e s = exec-keeps (λ w. P w.discoveries) e s (λ w n d h. h)

-- From a world with the counter `from` and `rows` targets that the player has discovered.
module _ (by : Text) (from rows : ℕ) where
  -- Each such target that is new since then is counted.
  abbrev pub Accounted : World → Type 0
  Accounted w = discovered by w.db + from ≤ rows + w.discoveries

  abbrev pub Counted : (ℕ → Type 0) → World → Type 0
  Counted R w = Accounted w × R w.discoveries

  module _ (e : Env)
      (others : (n : ℕ) (d : Db) → discovered by (e.others n d) ≤ discovered by d) where
    -- A statement that does not touch crawl_targets.
    pub elsewhere-Counted :
        {A : Type 0} (R : ℕ → Type 0) (s : Statement A)
        → ((now : ℕ) (d : Db) → (s now d).1.targets ≡ d.targets)
        → Keeps (Counted R) (exec e s)
    elsewhere-Counted R s same w (known, r) =
        let counter = exec-counter (λ m. m ≡ w.discoveries) e s w refl in
        let within =
          exec-keeps_db (λ d. discovered by d + from ≤ rows + w.discoveries) e s
            (λ n d h. omega (arith, others n d))
            (λ now d h.
              subst
                (λ ts.
                  count_where (λ r. text_eq r.discovery_via_player by) ts + from
                  ≤ rows + w.discoveries)
                (sym (same now d)) h)
            w known in
        (omega arith, subst R (sym counter) r)

    module _ (budget : ℕ) where
      abbrev Room : World → Type 0
      Room = Counted (λ m. m < budget)

      -- A target that was inserted is not counted yet.
      abbrev Enqueued : Result Bool → World → Type 0
      Enqueued (ok true) w =
          (discovered by w.db + from ≤ rows + suc w.discoveries) × (w.discoveries < budget)
      Enqueued (ok false) w = Room w
      Enqueued (err x) w = Room w

      enqueue_statement-Enqueued :
          (new : Text) (source : String) (w : World)
          → Room w
          → let m = exec e (enqueue_statement new source by) w in Enqueued m.0 m.1
      unfolding exec enqueue_statement
      enqueue_statement-Enqueued new source w (known, room) =
          let before = e.others w.step w.db in
          let now = e.db_now w.step in
          let fewer = others w.step w.db in
          elim (Bool-cases (e.fails w.step)) [
            | inl down ↦ rw (down, exec) (omega arith, room)
            | inr up ↦ elim (Bool-cases (any_where (has_tag new) before.targets)) [
              | inl queued ↦ rw (up, exec) (rw (queued) (omega arith, room))
              | inr fresh ↦ elim (Bool-cases (any_where (player_is new) before.players)) [
                | inl known_player ↦
                    rw (up, exec)
                      (rw (fresh) (
                        rw (known_player) (
                          omega (
                            arith,
                            count-snoc (λ r. text_eq r.discovery_via_player by) before.targets
                                (new_target new source by now),
                          ),
                          room,
                        )))
                | inr stranger ↦ rw (up, exec) (rw (fresh) (rw (stranger) (omega arith, room)))
              ]
            ]
          ]

      enqueue-Enqueued :
          (new : Text) (name source : String) (w : World)
          → Room w
          → let m = enqueue_discovered_player e new name source by w in Enqueued m.0 m.1
      unfolding enqueue_discovered_player
      enqueue-Enqueued new name source w room =
          bind_cases Room Enqueued _ _ (elsewhere-Counted (λ m. m < budget) _ (λ now d. refl))
            (λ x v known. known) (λ u v known. enqueue_statement-Enqueued new source v known) w room

      try_enqueue-Counted :
          (b : BattleIngestor) (new : Text) (name : String) (found : List Text)
          → b.discoverer_tag ≡ by
          → Leads Room (Counted (λ m. m ≤ budget)) (try_enqueue e b new name found)
      unfolding try_enqueue handle
      try_enqueue-Counted b new name found own w room =
          subst
            (λ t.
              Counted (λ m. m ≤ budget)
                (branch (λ x v. (ok found, v)) (count_discovery new found)
                  (enqueue_discovered_player e new name "battle_discovery" t w)).1)
            (sym own)
            (go (enqueue_discovered_player e new name "battle_discovery" by w)
              (enqueue-Enqueued new name "battle_discovery" w room))
        where
          go :
              (r : Result Bool × World)
              → Enqueued r.0 r.1
              → Counted
                  (λ m. m ≤ budget)
                  (branch (λ x v. (ok found, v)) (count_discovery new found) r).1
          go (ok true, v) (known, less) = (omega arith, omega arith)
          go (ok false, v) (known, less) = (known, omega arith)
          go (err x, v) (known, less) = (known, omega arith)

    -- A discovery never takes the counter beyond a positive budget, and counts what it inserts.
    pub discover_player-Counted :
        (budget : ℕ) (b : BattleIngestor) (new : Text) (name : String) (found : List Text)
        → b.cfg.max_discoveries_per_crawl ≡ pos (suc budget)
        → b.discoverer_tag ≡ by
        → Keeps (Counted (λ m. m ≤ suc budget)) (discover_player e b new name found)
    unfolding discover_player
    discover_player-Counted budget b new name found m own w (known, within) =
        elim (Bool-cases (text_eq new b.discoverer_tag)) [
          | inl same ↦ rw (same, discover_player) (known, within)
          | inr another ↦ elim (Bool-cases (exhausted b.cfg w.discoveries)) [
            | inl full ↦ rw (another, discover_player) (rw (full) (known, within))
            | inr room ↦
                rw (another, discover_player)
                  (rw (room)
                    (try_enqueue-Counted (suc budget) b new name found own w (known, ground arith)))
          ]
        ]
