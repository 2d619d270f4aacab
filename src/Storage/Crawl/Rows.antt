-- ===== src/Storage/Crawl/Rows.antt =====
-- storage/queries: the stage of a player over an UPDATE of the rows.
use brawl_stars_guide.Base.{
  ℕ, ◌≤◌, ◌≡◌, refl, Bool, true, Bool-cases, inl, inr, Text, Option, none, some, List, [], ◌∷◌,
  arith, ap, sym, ◌∙◌, subst, All, count_where, find_where, update_where, if◌then◌else◌,
}
use brawl_stars_guide.Storage.Schema.{Target}
use brawl_stars_guide.Storage.Crawl.{FinalizeParams, has_tag, owns, finalize_row}
use brawl_stars_guide.Storage.Crawl.Stages.{
  Stage, absent, stage_of, Action, finalizes_gen, Edge, finalized, stays,
}

abbrev pub rows_stage : Text → List Target → Stage
rows_stage tag rows = stage_of (find_where (has_tag tag) rows)

-- The primary key player_tag.
abbrev pub HasOneRow : Text → List Target → Type 0
HasOneRow tag rows = count_where (has_tag tag) rows ≤ 1

abbrev pub updated : (Target → Bool) → (Target → Target) → Option Target → Option Target
updated q f none = none
updated q f (some r) = some (if q r then f r else r)

find-update_where :
    (tag : Text) (q : Target → Bool) (f : Target → Target) (rows : List Target)
    → ((r : Target) → has_tag tag (f r) ≡ has_tag tag r)
    → find_where (has_tag tag) (update_where q f rows) ≡ updated q f (find_where (has_tag tag) rows)
unfolding find_where update_where
find-update_where tag q f [] same = refl
find-update_where tag q f (r ∷ rows) same =
    ground (arith, same r, find-update_where tag q f rows same)

none_else :
    (tag : Text) (rows : List Target)
    → count_where (has_tag tag) rows ≡ 0
    → (x : Target) → All (λ y. has_tag tag y ≡ true → y ≡ x) rows
unfolding count_where
none_else tag [] h x = tt
none_else tag (r ∷ rows) h x = elim (Bool-cases (has_tag tag r)) [
  | inl own ↦ absurd (ground (arith, own))
  | inr other ↦ (λ own. absurd (cc), none_else tag rows (ground (arith, other)) x)
]

-- With one row for the tag, every row with the tag is the one that is found.
pub found-only :
    (tag : Text) (rows : List Target) (x : Target)
    → HasOneRow tag rows
    → find_where (has_tag tag) rows ≡ some x
    → All (λ y. has_tag tag y ≡ true → y ≡ x) rows
unfolding find_where count_where
found-only tag [] x one found = tt
found-only tag (r ∷ rows) x one found = elim (Bool-cases (has_tag tag r)) [
  | inl own ↦ (λ h. ground arith, none_else tag rows (ground (arith, own)) x)
  | inr other ↦
      (λ h. absurd (cc), found-only tag rows x (ground (arith, other)) (ground (arith, other)))
]

abbrev pub Steps : Action → Text → List Target → List Target → Type 0
Steps a tag rows rows' = Edge a (rows_stage tag rows) (rows_stage tag rows')

-- An UPDATE of the player's row, by the row that is found.
pub update-Steps :
    (a : Action) (tag : Text) (q : Target → Bool) (f : Target → Target) (rows : List Target)
    → ((r : Target) → has_tag tag (f r) ≡ has_tag tag r)
    → ((o : Option Target)
        → find_where (has_tag tag) rows ≡ o
        → Edge a (stage_of o) (stage_of (updated q f o)))
    → Steps a tag rows (update_where q f rows)
update-Steps a tag q f rows same edge =
    subst (λ o. Edge a (rows_stage tag rows) (stage_of o))
      (sym (find-update_where tag q f rows same)) (edge (find_where (has_tag tag) rows) refl)

-- An UPDATE that does not touch the stage.
pub same_stage :
    (tag : Text) (q : Target → Bool) (f : Target → Target) (rows : List Target)
    → ((r : Target)
        → (has_tag tag (f r) ≡ has_tag tag r) × (stage_of (some (f r)) ≡ stage_of (some r)))
    → rows_stage tag (update_where q f rows) ≡ rows_stage tag rows
same_stage tag q f rows same =
    ap stage_of (find-update_where tag q f rows (λ r. (same r).0))
    ∙ kept (find_where (has_tag tag) rows)
  where
    kept : (o : Option Target) → stage_of (updated q f o) ≡ stage_of o
    kept none = refl
    kept (some r) = elim (Bool-cases (q r)) [
      | inl hit ↦ rw hit ((same r).1)
      | inr miss ↦ rw miss refl
    ]

pub finalize-Steps :
    (tag : Text) (p : FinalizeParams) (now : ℕ) (rows : List Target)
    → Steps
        (finalizes_gen p.generation)
        tag
        rows
        (update_where (owns p.player_tag p.generation) (finalize_row p now) rows)
finalize-Steps tag p now rows =
    update-Steps (finalizes_gen p.generation) tag _ _ rows (λ r. refl) edge
  where
    own :
        (r : Target)
        → r.crawl_generation ≡ p.generation
        → Edge
            (finalizes_gen p.generation)
            (stage_of (some r))
            (stage_of (some (finalize_row p now r)))
    own r e =
        subst
          (λ g. Edge (finalizes_gen g) (stage_of (some r)) (stage_of (some (finalize_row p now r))))
          e
          (finalized r.is_active p.is_active r.next_crawl_at p.next_crawl_at r.crawl_generation
            r.leased_until)

    edge :
        (o : Option Target)
        → find_where (has_tag tag) rows ≡ o
        → Edge
            (finalizes_gen p.generation)
            (stage_of o)
            (stage_of (updated (owns p.player_tag p.generation) (finalize_row p now) o))
    edge none e = stays _ absent
    edge (some r) e = elim (Bool-cases (owns p.player_tag p.generation r)) [
      | inl mine ↦ rw mine (own r (ground arith))
      | inr other ↦ rw other (stays _ _)
    ]
