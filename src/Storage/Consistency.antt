-- ===== src/Storage/Consistency.antt =====
-- storage/queries: the keys of the tables that the ingestion of battles writes, over its statements.
pub mod Updates
use brawl_stars_guide.Base.{
  ℕ, ◌≡◌, refl, true, false, Text, text_eq, text_eq_sound, text_eq_refl, String, List, [], ◌∷◌,
  ◌++◌, Option, none, some, arith, All, ◌==◌, any_where, Bool-cases, inl, inr, Distinct,
  append-Distinct, any-append_true,
}
use brawl_stars_guide.Storage.Schema.{
  Db, Player, Participant, Event, BattleTeam, Brawler, PlayerSnapshot, BrawlerSnapshot, Target,
}
use brawl_stars_guide.Storage.Crawl.{has_tag}
use brawl_stars_guide.Storage.Players.{player_is, enqueue_statement, new_target}
use brawl_stars_guide.Storage.Battles.{
  BattleParams, battle_is, battle_row, via_known, insert_battle_statement, participant_is,
  brawler_known, participant_statement,
}
use brawl_stars_guide.Storage.Brawlers.{brawler_is, retired_brawler, ensure_statement}

-- One battle for a fingerprint, one participant for a battle and a tag, one target for a tag, one
-- brawler for an id, and every participant's brawler, where there is one, in the reference table.
pub record Consistent (d : Db) : Type 0 where
  pub battles : Distinct (λ x. battle_is x.fingerprint) d.battles
  pub participants : Distinct (λ x. participant_is x.battle_id x.player_tag) d.participants
  pub targets : Distinct (λ x. has_tag x.player_tag) d.targets
  pub ids : Distinct (λ x. brawler_is x.id) d.brawlers
  pub brawlers : All (λ p. brawler_known d p.brawler_id ≡ true) d.participants

-- The keys do not depend on the other tables.
pub other_tables :
    (d : Db) (players : List Player) (events : List Event) (teams : List BattleTeam)
    (snapshots : List PlayerSnapshot) (brawler_snapshots : List BrawlerSnapshot) (next_id : ℕ)
    → Consistent d
    → Consistent (record d {
      players = players;
      events = events;
      teams = teams;
      snapshots = snapshots;
      brawler_snapshots = brawler_snapshots;
      next_id = next_id;
    })
other_tables d players events teams snapshots brawler_snapshots next_id h = record {
  battles = h.battles;
  participants = h.participants;
  targets = h.targets;
  ids = h.ids;
  brawlers = h.brawlers;
}

text_eq_sym : (s t : Text) → text_eq s t ≡ true → text_eq t s ≡ true
text_eq_sym s t h = rw (text_eq_sound s t h) (text_eq_refl t)

participant_sym :
    (x y : Participant)
    → participant_is x.battle_id x.player_tag y ≡ true
    → participant_is y.battle_id y.player_tag x ≡ true
participant_sym x y h = ground (arith, text_eq_sym y.player_tag x.player_tag)

All-snoc :
    (P : Participant → Type 0) (xs : List Participant) (r : Participant)
    → All P xs
    → P r
    → All P (xs ++ r ∷ [])
All-snoc P [] r h k = (k, tt)
All-snoc P (x ∷ xs) r h k = (h.0, All-snoc P xs r h.1 k)

pub insert_battle-Consistent :
    (p : BattleParams) (now : ℕ) (d : Db)
    → Consistent d
    → Consistent (insert_battle_statement p now d).1
unfolding insert_battle_statement
insert_battle-Consistent p now d h =
    elim (Bool-cases (any_where (battle_is p.fingerprint) d.battles)) [
      | inl old ↦ rw (old, insert_battle_statement) h
      | inr new ↦ elim (Bool-cases (via_known d p.discovered_via_player_tag)) [
        | inl via ↦
            rw (new, insert_battle_statement)
              (rw (via) (record {
                battles =
                    append-Distinct (λ x. battle_is x.fingerprint) d.battles
                      (battle_row d.next_id p) (λ x y. text_eq_sym y.fingerprint x.fingerprint) new
                      h.battles;
                participants = h.participants;
                targets = h.targets;
                ids = h.ids;
                brawlers = h.brawlers;
              }))
        | inr lost ↦ rw (new, insert_battle_statement) (rw (lost) h)
      ]
    ]

pub participant-Consistent :
    (p : Participant) (now : ℕ) (d : Db)
    → Consistent d
    → Consistent (participant_statement p now d).1
unfolding participant_statement
participant-Consistent p now d h =
    elim (Bool-cases (any_where (participant_is p.battle_id p.player_tag) d.participants)) [
      | inl old ↦ rw (old, participant_statement) h
      | inr new ↦ elim (Bool-cases (brawler_known d p.brawler_id)) [
        | inl known ↦
            rw (new, participant_statement)
              (rw (known) (record {
                battles = h.battles;
                participants =
                    append-Distinct (λ x. participant_is x.battle_id x.player_tag) d.participants p
                      participant_sym new h.participants;
                targets = h.targets;
                ids = h.ids;
                brawlers =
                    All-snoc (λ q. brawler_known d q.brawler_id ≡ true) d.participants p h.brawlers
                      known;
              }))
        | inr lost ↦ rw (new, participant_statement) (rw (lost) h)
      ]
    ]

-- A longer reference table knows the brawlers of the shorter one.
still_known :
    (d : Db) (b : Brawler) (ps : List Participant)
    → All (λ p. brawler_known d p.brawler_id ≡ true) ps
    → All (λ p. brawler_known (record d { brawlers = d.brawlers ++ b ∷ [] }) p.brawler_id ≡ true) ps
still_known d b [] h = tt
still_known d b (p ∷ ps) h = (longer p.brawler_id h.0, still_known d b ps h.1)
  where
    longer :
        (id : Option ℕ)
        → brawler_known d id ≡ true
        → brawler_known (record d { brawlers = d.brawlers ++ b ∷ [] }) id ≡ true
    longer none k = refl
    longer (some n) k = any-append_true (λ c. c.id == n) d.brawlers b k

same_id : (x y : Brawler) → brawler_is x.id y ≡ true → brawler_is y.id x ≡ true
same_id x y h = ground arith

pub append_brawler-Consistent :
    (d : Db) (row : Brawler)
    → any_where (brawler_is row.id) d.brawlers ≡ false
    → Consistent d
    → Consistent (record d { brawlers = d.brawlers ++ row ∷ [] })
append_brawler-Consistent d row new h = record {
  battles = h.battles;
  participants = h.participants;
  targets = h.targets;
  ids = append-Distinct (λ x. brawler_is x.id) d.brawlers row same_id new h.ids;
  brawlers = still_known d row d.participants h.brawlers;
}

pub ensure-Consistent :
    (id : ℕ) (name : String) (now : ℕ) (d : Db)
    → Consistent d
    → Consistent (ensure_statement id name now d).1
unfolding ensure_statement
ensure-Consistent id name now d h = elim (Bool-cases (any_where (brawler_is id) d.brawlers)) [
  | inl old ↦ rw (old, ensure_statement) h
  | inr new ↦
      rw (new, ensure_statement) (append_brawler-Consistent d (retired_brawler id name now) new h)
]

pub enqueue-Consistent :
    (tag : Text) (source : String) (via : Text) (now : ℕ) (d : Db)
    → Consistent d
    → Consistent (enqueue_statement tag source via now d).1
unfolding enqueue_statement
enqueue-Consistent tag source via now d h = elim (Bool-cases (any_where (has_tag tag) d.targets)) [
  | inl old ↦ rw (old, enqueue_statement) h
  | inr new ↦ elim (Bool-cases (any_where (player_is tag) d.players)) [
    | inl there ↦
        rw (new, enqueue_statement)
          (rw (there) (record {
            battles = h.battles;
            participants = h.participants;
            targets =
                append-Distinct (λ x. has_tag x.player_tag) d.targets
                  (new_target tag source via now) (λ x y. text_eq_sym y.player_tag x.player_tag) new
                  h.targets;
            ids = h.ids;
            brawlers = h.brawlers;
          }))
    | inr lost ↦ rw (new, enqueue_statement) (rw (lost) h)
  ]
]
