-- ===== src/Storage/Consistency/Updates.antt =====
-- storage/queries: the keys of the tables over the UPDATEs, which keep the columns of a key.
use brawl_stars_guide.Base.{
  ℕ, ◌≡◌, refl, ap, ◌∙◌, Bool, true, false, ◌&&◌, ◌||◌, Text, text_eq, List, [], ◌∷◌, ◌++◌, Option,
  none, some, arith, All-weaken_rows, ◌==◌, any_where, count_where, update_where, Bool-cases, inl,
  inr, Distinct, ℤ, pos, leb_ℤ, leb, if◌then◌else◌, pos_part,
}
use brawl_stars_guide.Storage.Schema.{Db, Brawler, Target}
use brawl_stars_guide.Storage.Crawl.{
  FinalizeParams, has_tag, next_target, claim_statement, claim_found, finalize_statement,
  finalize_row,
}
use brawl_stars_guide.Storage.Sampling.{
  sample_rows, sample, sample_full, classify, classify_row, evict, victim, evict_row, evict_victim,
  in_bucket, active_other, unclassified,
}
use brawl_stars_guide.Storage.Battles.{brawler_known}
use brawl_stars_guide.Storage.Brawlers.{brawler_is}
use brawl_stars_guide.Storage.Consistency.{Consistent, append_brawler-Consistent}

module _ {A : Type 0} where
  pub any-update :
      (q p : A → Bool) (f : A → A) (xs : List A)
      → ((x : A) → p x ≡ true → q (f x) ≡ q x)
      → any_where q (update_where p f xs) ≡ any_where q xs
  unfolding any_where update_where
  any-update q p f [] same = refl
  any-update q p f (x ∷ xs) same = ground (arith, same x, any-update q p f xs same)

  any-same :
      (q r : A → Bool) (xs : List A) → ((x : A) → q x ≡ r x) → any_where q xs ≡ any_where r xs
  unfolding any_where
  any-same q r [] same = refl
  any-same q r (x ∷ xs) same = ground (arith, same x, any-same q r xs same)

  pub update-Distinct :
      (same : A → A → Bool) (p : A → Bool) (f : A → A) (xs : List A)
      → ((x y : A) → p x ≡ true → same (f x) y ≡ same x y)
      → ((x y : A) → p y ≡ true → same x (f y) ≡ same x y)
      → Distinct same xs
      → Distinct same (update_where p f xs)
  unfolding Distinct update_where
  update-Distinct same p f [] left right h = tt
  update-Distinct same p f (x ∷ xs) left right h = elim (Bool-cases (p x)) [
    | inl t ↦ rw (t) (
      any-update (same (f x)) p f xs (λ y. right (f x) y)
          ∙ any-same (same (f x)) (same x) xs (λ y. left x y t)
          ∙ h.0,
      update-Distinct same p f xs left right h.1,
    )
    | inr t ↦ rw (t) (
      any-update (same x) p f xs (λ y. right x y) ∙ h.0,
      update-Distinct same p f xs left right h.1,
    )
  ]

-- An UPDATE that keeps the tags of the targets.
module _ (p : Target → Bool) (f : Target → Target)
    (same_tag : (r : Target) → (f r).player_tag ≡ r.player_tag) where
  pub tags-Distinct :
      (rows : List Target)
      → Distinct (λ x. has_tag x.player_tag) rows
      → Distinct (λ x. has_tag x.player_tag) (update_where p f rows)
  tags-Distinct rows =
      update-Distinct (λ x. has_tag x.player_tag) p f rows
        (λ x y t. ap (text_eq y.player_tag) (same_tag x))
        (λ x y t. ap (λ z. text_eq z x.player_tag) (same_tag y))

-- The keys depend on the targets by their tags only.
pub targets-Consistent :
    (d : Db) (rows : List Target)
    → Distinct (λ x. has_tag x.player_tag) rows
    → Consistent d
    → Consistent (record d { targets = rows })
targets-Consistent d rows tags h = record {
  battles = h.battles;
  participants = h.participants;
  targets = tags;
  ids = h.ids;
  brawlers = h.brawlers;
}

pub update_targets-Consistent :
    (p : Target → Bool) (f : Target → Target) (d : Db)
    → ((r : Target) → (f r).player_tag ≡ r.player_tag)
    → Consistent d
    → Consistent (record d { targets = update_where p f d.targets })
update_targets-Consistent p f d same_tag h =
    targets-Consistent d _ (tags-Distinct p f same_tag d.targets h.targets) h

pub claim-Consistent :
    (locked : Text → Bool) (now : ℕ) (d : Db)
    → Consistent d
    → Consistent (claim_statement locked now d).1
unfolding claim_statement
claim-Consistent locked now d h = found (next_target locked now d.targets)
  where
    found : (o : Option Target) → Consistent (claim_found now d o).1
    found none = h
    found (some r) = update_targets-Consistent (has_tag r.player_tag) _ d (λ x. refl) h

pub finalize-Consistent :
    (p : FinalizeParams) (now : ℕ) (d : Db)
    → Consistent d
    → Consistent (finalize_statement p now d).1
unfolding finalize_statement
finalize-Consistent p now d h = update_targets-Consistent _ (finalize_row p now) d (λ r. refl) h

-- One target for a tag.
abbrev pub OneEach : List Target → Type 0
OneEach rows = Distinct (λ x. has_tag x.player_tag) rows

if-OneEach :
    (b : Bool) (xs ys : List Target) → OneEach xs → OneEach ys → OneEach (if b then xs else ys)
if-OneEach true xs ys h k = h
if-OneEach false xs ys h k = k

decided-OneEach :
    (b : Bool) (x y : Bool × List Target)
    → OneEach x.1
    → OneEach y.1
    → OneEach (if b then x else y).1
decided-OneEach true x y h k = h
decided-OneEach false x y h k = k

evict-OneEach :
    (pick bucket : ℕ) (tag : Text) (now : ℕ) (rows : List Target)
    → OneEach rows
    → OneEach (evict pick bucket tag now rows)
unfolding evict
evict-OneEach pick bucket tag now rows h = chosen (victim pick bucket tag now rows)
  where
    chosen : (o : Option Target) → OneEach (evict_victim now rows o)
    chosen none = h
    chosen (some v) = tags-Distinct (has_tag v.player_tag) (evict_row now) (λ r. refl) rows h

sample_full-OneEach :
    (below : ℕ → ℕ → Bool) (pick bucket : ℕ) (tag : Text) (cap seen now : ℕ) (rows : List Target)
    → OneEach rows
    → OneEach (sample_full below pick bucket tag cap seen now rows).1
unfolding sample_full
sample_full-OneEach below pick bucket tag cap seen now rows h =
    let full = leb cap (count_where (active_other bucket tag) rows) in
    let evicted = evict pick bucket tag now rows in
    decided-OneEach (below cap seen) (false, if full then evicted else rows) (true, rows)
      (if-OneEach full evicted rows (evict-OneEach pick bucket tag now rows h) h) h

sample-OneEach :
    (below : ℕ → ℕ → Bool) (pick bucket : ℕ) (tag : Text) (cap : ℤ) (now : ℕ) (rows : List Target)
    → OneEach rows
    → OneEach (sample below pick bucket tag cap now rows).1
unfolding sample
sample-OneEach below pick bucket tag cap now rows h =
    let seen = count_where (in_bucket bucket) rows in
    decided-OneEach (leb_ℤ cap (pos 0) || leb_ℤ (pos seen) cap) (false, rows)
      (sample_full below pick bucket tag (pos_part cap) seen now rows) h
      (sample_full-OneEach below pick bucket tag (pos_part cap) seen now rows h)

-- The transaction of the sampling.
pub sample_rows-OneEach :
    (below : ℕ → ℕ → Bool) (pick : ℕ) (tag : Text) (bucket priority : ℕ) (trophies cap : ℤ)
    (now : ℕ) (rows : List Target)
    → OneEach rows
    → OneEach (sample_rows below pick tag bucket priority trophies cap now rows).1
unfolding sample_rows classify
sample_rows-OneEach below pick tag bucket priority trophies cap now rows h =
    sample-OneEach below pick bucket tag cap now _ (
      tags-Distinct (λ r. has_tag tag r && unclassified r)
        (classify_row bucket priority trophies now) (λ r. refl) rows h)

-- The upsert of a brawler.
upsert_row-Consistent :
    (d : Db) (row : Brawler)
    → any_where (brawler_is row.id) d.brawlers ≡ true
    → Consistent d
    → Consistent (record d { brawlers = update_where (brawler_is row.id) (λ b. row) d.brawlers })
upsert_row-Consistent d row there h = record {
  battles = h.battles;
  participants = h.participants;
  targets = h.targets;
  ids =
      update-Distinct (λ x. brawler_is x.id) (brawler_is row.id) (λ b. row) d.brawlers
        (λ x y t. ground arith) (λ x y t. ground arith) h.ids;
  brawlers =
      All-weaken_rows _
        (λ p.
          brawler_known
            (record d { brawlers = update_where (brawler_is row.id) (λ b. row) d.brawlers })
            p.brawler_id
          ≡ true)
        d.participants (λ p. kept p.brawler_id) h.brawlers;
}
  where
    kept :
        (id : Option ℕ)
        → brawler_known d id ≡ true
        → brawler_known
            (record d { brawlers = update_where (brawler_is row.id) (λ b. row) d.brawlers })
            id
          ≡ true
    kept none k = refl
    kept (some n) k =
        any-update (λ (b : Brawler). b.id == n) (brawler_is row.id) (λ b. row) d.brawlers
          (λ x t. ground arith)
        ∙ k

pub upsert-Consistent :
    (d : Db) (row : Brawler)
    → Consistent d
    → Consistent (record d {
      brawlers =
          if any_where (brawler_is row.id) d.brawlers
          then update_where (brawler_is row.id) (λ b. row) d.brawlers
          else d.brawlers ++ row ∷ [];
    })
upsert-Consistent d row h = elim (Bool-cases (any_where (brawler_is row.id) d.brawlers)) [
  | inl old ↦ rw (old) (upsert_row-Consistent d row old h)
  | inr new ↦ rw (new) (append_brawler-Consistent d row new h)
]
