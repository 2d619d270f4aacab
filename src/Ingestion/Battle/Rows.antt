-- ===== src/Ingestion/Battle/Rows.antt =====
-- storage/queries/battles.go: the rows of a battle and its participants that the statements leave.
use brawl_stars_guide.Base.{
  ℕ, Bool, true, false, ◌≡◌, Text, List, [], ◌∷◌, ◌++◌, map, Option, none, some, Error, no_rows,
  api_error, global_halt, other, ok, arith, sym, subst, ◌==◌, text_eq_refl, any_where, find_where,
  view_of, All,
}
use brawl_stars_guide.Apiclient.Types.{BattleEntry, BattleParticipant}
use brawl_stars_guide.Apiclient.Tags.{normalize_tag}
use brawl_stars_guide.Storage.Schema.{Db, Participant, Battle}
use brawl_stars_guide.Storage.Statement.{Env, World, M}
use brawl_stars_guide.Storage.Statement.Keeps.{Keeps}
use brawl_stars_guide.Storage.Statement.Ensures.{
  Ensures, handle-Ensures, bind-Ensures, exec-Ensures,
}
use brawl_stars_guide.Storage.Battles.{
  BattleParams, InsertBattleResult, battle_is, participant_is, participant_statement,
  insert_battle_participant, insert_battle_statement, insert_battle, battle_id_by_fingerprint,
  after_conflict, battle_row, found_id,
}
use brawl_stars_guide.Ingestion.Runtime.{Runtime}
use brawl_stars_guide.Ingestion.Battle.{IngestResult}

-- The participant has a row of the battle.
abbrev pub HasRow : ℕ → Text → World → Type 0
HasRow id tag w = any_where (participant_is id tag) w.db.participants ≡ true

-- The battle with the fingerprint is stored under the id.
abbrev pub HasBattle : Text → ℕ → World → Type 0
HasBattle fp id w = view_of (λ b. b.id) (find_where (battle_is fp) w.db.battles) ≡ some id

pub any-append :
    {A : Type 0} (p : A → Bool) (xs ys : List A)
    → any_where p xs ≡ true
    → any_where p (xs ++ ys) ≡ true
unfolding any_where
any-append p [] ys h = absurd (cc)
any-append p (x ∷ xs) ys h = ground (arith, any-append p xs ys)

any-snoc :
    {A : Type 0} (p : A → Bool) (xs : List A) (y : A)
    → p y ≡ true
    → any_where p (xs ++ y ∷ []) ≡ true
unfolding any_where
any-snoc p [] y h = ground (arith, h)
any-snoc p (x ∷ xs) y h = ground (arith, any-snoc p xs y h)

same_number : (n : ℕ) → (n == n) ≡ true
same_number n = ground arith

-- A participant's INSERT that returns without an error leaves a row for it.
pub participant-Ensures :
    (e : Env) (row : Participant)
    → Ensures (λ u. HasRow row.battle_id row.player_tag) (insert_battle_participant e row)
unfolding insert_battle_participant participant_statement
participant-Ensures e row = exec-Ensures e _ _ (λ now d w a done same.
    subst (λ x. any_where (participant_is row.battle_id row.player_tag) x.participants ≡ true)
      (sym same) (stored now d a done))
  where
    stored :
        (now : ℕ) (d : Db) (u : Unit {0})
        → (participant_statement row now d).0 ≡ ok u
        → any_where
            (participant_is row.battle_id row.player_tag)
            (participant_statement row now d).1.participants
          ≡ true
    stored now d u done = ground (
      arith,
      any-snoc (participant_is row.battle_id row.player_tag) d.participants row
          (ground (arith, text_eq_refl row.player_tag)),
    )

find-fresh :
    {A B : Type 0} (p : A → Bool) (view : A → B) (xs : List A) (y : A)
    → any_where p xs ≡ false
    → p y ≡ true
    → view_of view (find_where p (xs ++ y ∷ [])) ≡ some (view y)
unfolding any_where find_where
find-fresh p view [] y new h = rw h
find-fresh p view (x ∷ xs) y new h = ground (arith, find-fresh p view xs y)

found_id-some : (o : Option Battle) (id : ℕ) → found_id o ≡ ok id → view_of (λ b. b.id) o ≡ some id
found_id-some none id h = absurd (cc)
found_id-some (some b) id h = ground arith

returned :
    (fp : Text) (id : ℕ) (new : Bool) (w : World) (r : InsertBattleResult)
    → ok (record { battle_id = id; is_new = new }) ≡ ok r
    → HasBattle fp id w
    → HasBattle fp r.battle_id w
returned fp id new w r eq h =
    let same : id ≡ r.battle_id = ground arith in subst (λ n. HasBattle fp n w) same h

-- The INSERT of a battle, or the lookup after a conflict, that returns without an error leaves a battle
-- with the fingerprint under the id that it returns.
pub battle-Ensures :
    (e : Env) (p : BattleParams)
    → Ensures (λ r. HasBattle p.fingerprint r.battle_id) (insert_battle e p)
unfolding insert_battle insert_battle_statement battle_id_by_fingerprint
battle-Ensures e p =
    handle-Ensures (λ id. HasBattle p.fingerprint id) Stored _ _ _
      (exec-Ensures e _ (λ id. HasBattle p.fingerprint id)
        (λ now d w id done same.
          subst
            (λ x. view_of (λ b. b.id) (find_where (battle_is p.fingerprint) x.battles) ≡ some id)
            (sym same) (inserted now d id done)))
      conflict (λ id v has b eq. returned p.fingerprint id true v b eq has)
  where
    Stored : InsertBattleResult → World → Type 0
    Stored r = HasBattle p.fingerprint r.battle_id

    inserted :
        (now : ℕ) (d : Db) (id : ℕ)
        → (insert_battle_statement p now d).0 ≡ ok id
        → view_of
            (λ b. b.id)
            (find_where (battle_is p.fingerprint) (insert_battle_statement p now d).1.battles)
          ≡ some id
    inserted now d id done = ground (
      arith,
      find-fresh (battle_is p.fingerprint) (λ b. b.id) d.battles (battle_row d.next_id p),
      text_eq_refl p.fingerprint,
    )

    conflict : (x : Error) → Ensures Stored (after_conflict e p.fingerprint x)
    conflict no_rows =
        bind-Ensures (λ id. HasBattle p.fingerprint id) Stored _ _
          (exec-Ensures e _ (λ id. HasBattle p.fingerprint id)
            (λ now d w id done same.
              subst
                (λ x.
                  view_of (λ b. b.id) (find_where (battle_is p.fingerprint) x.battles) ≡ some id)
                (sym same) (found_id-some _ id done)))
          (λ id v has b eq. returned p.fingerprint id false v b eq has)
    conflict (api_error c q) = λ w a eq. absurd (cc)
    conflict global_halt = λ w a eq. absurd (cc)
    conflict other = λ w a eq. absurd (cc)

-- What other transactions leave: stored battles keep their ids, and stored participants stay.
pub record KeepsRows (e : Env) : Type 0 where
  pub battles :
      (fp : Text) (id n : ℕ) (d : Db)
      → view_of (λ b. b.id) (find_where (battle_is fp) d.battles) ≡ some id
      → view_of (λ b. b.id) (find_where (battle_is fp) (e.others n d).battles) ≡ some id
  pub participants :
      (id : ℕ) (tag : Text) (n : ℕ) (d : Db)
      → any_where (participant_is id tag) d.participants ≡ true
      → any_where (participant_is id tag) (e.others n d).participants ≡ true

abbrev pub AllRows : ℕ → List Text → World → Type 0
AllRows id tags w = All (λ tag. HasRow id tag w) tags

pub all-keeps :
    {A : Type 0} (id : ℕ) (tags : List Text) (m : M A)
    → ((tag : Text) → Keeps (HasRow id tag) m)
    → Keeps (AllRows id tags) m
all-keeps id [] m keeps w h = tt
all-keeps id (tag ∷ tags) m keeps w h = (keeps tag w h.0, all-keeps id tags m keeps w h.1)

abbrev pub player_rows : Runtime → List BattleParticipant → List Text
player_rows rt ps = map (λ p. normalize_tag rt.wide p.tag) ps

unfoldable pub team_rows : Runtime → List (List BattleParticipant) → List Text
team_rows rt [] = []
team_rows rt (team ∷ teams) = player_rows rt team ++ team_rows rt teams

-- The players of the rows that are written: those of the teams, if the battle has teams.
abbrev pub row_tags : Runtime → List (List BattleParticipant) → List BattleParticipant → List Text
row_tags rt [] ps = player_rows rt ps
row_tags rt (team ∷ teams) ps = team_rows rt (team ∷ teams)

-- What is stored for an entry once it is ingested.
abbrev pub Stored : Runtime → BattleEntry → IngestResult → World → Type 0
Stored rt entry r w =
    (id : ℕ) × HasBattle r.fingerprint id w
    × AllRows id (row_tags rt entry.battle.teams entry.battle.players) w
