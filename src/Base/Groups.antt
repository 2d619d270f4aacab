-- ===== src/Base/Groups.antt =====
-- Groups of rows.
use Prim.Native.Nat.{ℕ, suc, ◌≤◌}
use mathlib.Core.Path.{◌≡◌, refl, ap, ◌∙◌}
use mathlib.Core.Logic.{inl, inr}
use mathlib.Core.Bool.{Bool, true}
use mathlib.Core.List.{List, [], ◌∷◌, map}
use native.Mathlib.Omega.{arith}
use brawl_stars_guide.Base.Tests.{if◌then◌else◌, Bool-cases}
use brawl_stars_guide.Base.Rows.{length, keep_where, All}
use brawl_stars_guide.Base.Queries.{Group, add_row, group_by, sum_of}

module _ {A : Type 0} where
  pub sum_of-All : (v w : A → ℕ) (xs : List A) → All (λ x. v x ≡ w x) xs → sum_of v xs ≡ sum_of w xs
  sum_of-All v w [] h = refl
  sum_of-All v w (x ∷ xs) h = omega (arith, h.0, sum_of-All v w xs h.1)

  sum-add_row :
      (same : A → A → Bool) (x : A) (gs : List (Group A))
      → sum_of (λ g. length g.rows) (add_row same x gs) ≡ suc (sum_of (λ g. length g.rows) gs)
  unfolding add_row
  sum-add_row same x [] = refl
  sum-add_row same x (g ∷ gs) = ground (arith, sum-add_row same x gs)

  -- Every row is in one group.
  pub sum-group_by :
      (same : A → A → Bool) (xs : List A)
      → sum_of (λ g. length g.rows) (group_by same xs) ≡ length xs
  unfolding group_by
  sum-group_by same [] = refl
  sum-group_by same (x ∷ xs) = sum-add_row same x (group_by same xs) ∙ ap suc (sum-group_by same xs)

  add_row-All :
      (P : A → Type 0) (same : A → A → Bool) (x : A) (gs : List (Group A))
      → P x
      → All (λ g. P g.first × All P g.rows) gs
      → All (λ g. P g.first × All P g.rows) (add_row same x gs)
  unfolding add_row
  add_row-All P same x [] h k = ((h, (h, tt)), tt)
  add_row-All P same x (g ∷ gs) h k = elim (Bool-cases (same g.first x)) [
    | inl t ↦ rw (t, add_row) ((k.0.0, (h, k.0.1)), k.1)
    | inr f ↦ rw (f, add_row) (k.0, add_row-All P same x gs h k.1)
  ]

  -- A group holds only rows of the table.
  pub group_by-All :
      (P : A → Type 0) (same : A → A → Bool) (xs : List A)
      → All P xs
      → All (λ g. P g.first × All P g.rows) (group_by same xs)
  unfolding group_by
  group_by-All P same [] h = tt
  group_by-All P same (x ∷ xs) h =
      add_row-All P same x (group_by same xs) h.0 (group_by-All P same xs h.1)

  add_row_filled :
      (same : A → A → Bool) (x : A) (gs : List (Group A))
      → All (λ g. 1 ≤ length g.rows) gs
      → All (λ g. 1 ≤ length g.rows) (add_row same x gs)
  unfolding add_row
  add_row_filled same x [] h = (omega arith, tt)
  add_row_filled same x (g ∷ gs) h = elim (Bool-cases (same g.first x)) [
    | inl t ↦ rw (t, add_row) (omega arith, h.1)
    | inr f ↦ rw (f, add_row) (h.0, add_row_filled same x gs h.1)
  ]

  -- No group is empty.
  pub group_by_filled :
      (same : A → A → Bool) (xs : List A) → All (λ g. 1 ≤ length g.rows) (group_by same xs)
  unfolding group_by
  group_by_filled same [] = tt
  group_by_filled same (x ∷ xs) = add_row_filled same x (group_by same xs) (group_by_filled same xs)

  add_row-keep :
      (p : A → Bool) (same : A → A → Bool) (x : A) (gs : List (Group A))
      → ((a b : A) → same a b ≡ true → p a ≡ p b)
      → keep_where (λ g. p g.first) (add_row same x gs) ≡ (
          if p x
          then add_row same x (keep_where (λ g. p g.first) gs)
          else keep_where (λ g. p g.first) gs)
  unfolding add_row keep_where
  add_row-keep p same x [] respect = ground arith
  add_row-keep p same x (g ∷ gs) respect =
      ground (arith, respect g.first x, add_row-keep p same x gs respect)

  -- A WHERE that depends on the key may come before GROUP BY or after it.
  pub group_by-keep :
      (p : A → Bool) (same : A → A → Bool) (xs : List A)
      → ((a b : A) → same a b ≡ true → p a ≡ p b)
      → keep_where (λ g. p g.first) (group_by same xs) ≡ group_by same (keep_where p xs)
  unfolding group_by keep_where
  group_by-keep p same [] respect = refl
  group_by-keep p same (x ∷ xs) respect =
      ground
        (arith, add_row-keep p same x (group_by same xs) respect, group_by-keep p same xs respect)

  add_row-agree :
      (P : A → Type 0) (same same' : A → A → Bool) (x : A) (gs : List (Group A))
      → ((a b : A) → P a → P b → same a b ≡ same' a b)
      → P x
      → All (λ g. P g.first × All P g.rows) gs
      → add_row same x gs ≡ add_row same' x gs
  unfolding add_row
  add_row-agree P same same' x [] agree h k = refl
  add_row-agree P same same' x (g ∷ gs) agree h k =
      ground (arith, agree g.first x k.0.0 h, add_row-agree P same same' x gs agree h k.1)

  -- Keys that agree on the rows of the table give the same groups.
  pub group_by-agree :
      (P : A → Type 0) (same same' : A → A → Bool) (xs : List A)
      → ((a b : A) → P a → P b → same a b ≡ same' a b)
      → All P xs
      → group_by same xs ≡ group_by same' xs
  unfolding group_by
  group_by-agree P same same' [] agree h = refl
  group_by-agree P same same' (x ∷ xs) agree h =
      add_row-agree P same same' x (group_by same xs) agree h.0 (group_by-All P same xs h.1)
      ∙ ap (add_row same' x) (group_by-agree P same same' xs agree h.1)

module _ {A B : Type 0} where
  abbrev pub map_group : (A → B) → Group A → Group B
  map_group f g = record { first = f g.first; rows = map f g.rows }

  add_row-map :
      (same : B → B → Bool) (f : A → B) (x : A) (gs : List (Group A))
      → add_row same (f x) (map (map_group f) gs)
        ≡ map (map_group f) (add_row (λ a b. same (f a) (f b)) x gs)
  unfolding add_row
  add_row-map same f x [] = refl
  add_row-map same f x (g ∷ gs) = ground (arith, add_row-map same f x gs)

  -- GROUP BY a computed key.
  pub group_by-map :
      (same : B → B → Bool) (f : A → B) (xs : List A)
      → group_by same (map f xs) ≡ map (map_group f) (group_by (λ a b. same (f a) (f b)) xs)
  unfolding group_by
  group_by-map same f [] = refl
  group_by-map same f (x ∷ xs) =
      ap (add_row same (f x)) (group_by-map same f xs)
      ∙ add_row-map same f x (group_by (λ a b. same (f a) (f b)) xs)
