-- ===== src/Base/Filters.antt =====
-- Filters, maps and joins of rows.
use Prim.Native.Nat.{ℕ}
use mathlib.Core.Path.{◌≡◌, refl}
use mathlib.Core.Logic.{inl, inr}
use mathlib.Core.Bool.{Bool, true, false, ◌&&◌}
use mathlib.Core.List.{List, [], ◌∷◌, map}
use native.Mathlib.Omega.{arith}
use brawl_stars_guide.Base.Tests.{if◌then◌else◌, Bool-cases}
use brawl_stars_guide.Base.Rows.{length, length-append, keep_where, All, All-append}
use brawl_stars_guide.Base.Queries.{flat_map, sum_of}

module _ {A : Type 0} where
  pub keep_where-All :
      (P : A → Type 0) (p : A → Bool) (xs : List A) → All P xs → All P (keep_where p xs)
  unfolding keep_where
  keep_where-All P p [] h = tt
  keep_where-All P p (x ∷ xs) h = elim (Bool-cases (p x)) [
    | inl t ↦ rw (t, keep_where) (h.0, keep_where-All P p xs h.1)
    | inr f ↦ rw (f, keep_where) (keep_where-All P p xs h.1)
  ]

  pub keep_where-All_kept : (p : A → Bool) (xs : List A) → All (λ x. p x ≡ true) (keep_where p xs)
  unfolding keep_where
  keep_where-All_kept p [] = tt
  keep_where-All_kept p (x ∷ xs) = elim (Bool-cases (p x)) [
    | inl t ↦ rw (t, keep_where) (t, keep_where-All_kept p xs)
    | inr f ↦ rw (f, keep_where) (keep_where-All_kept p xs)
  ]

  -- What holds of the kept rows holds of the rows that are kept.
  pub keep_where-All_back :
      (P : A → Type 0) (p : A → Bool) (xs : List A)
      → All P (keep_where p xs)
      → All (λ x. p x ≡ true → P x) xs
  unfolding keep_where
  keep_where-All_back P p [] h = tt
  keep_where-All_back P p (x ∷ xs) h = split (p x) refl (λ k. keep_where-All_back P p xs k) h
    where
      split :
          (b : Bool)
          → p x ≡ b
          → (All P (keep_where p xs) → All (λ y. p y ≡ true → P y) xs)
          → All P (if b then x ∷ keep_where p xs else keep_where p xs)
          → (p x ≡ true → P x) × All (λ y. p y ≡ true → P y) xs
      split true e later k = (λ t. k.0, later k.1)
      split false e later k = (λ t. absurd (cc), later k)

  pub keep_where_none :
      (p : A → Bool) (xs : List A) → All (λ x. p x ≡ false) xs → keep_where p xs ≡ []
  unfolding keep_where
  keep_where_none p [] h = refl
  keep_where_none p (x ∷ xs) h = ground (arith, keep_where_none p xs h.1)

  pub keep_where_of_All :
      (p : A → Bool) (xs : List A) → All (λ x. p x ≡ true) xs → keep_where p xs ≡ xs
  unfolding keep_where
  keep_where_of_All p [] h = refl
  keep_where_of_All p (x ∷ xs) h = ground (arith, keep_where_of_All p xs h.1)

  pub All-weaken_rows :
      (P Q : A → Type 0) (xs : List A) → ((x : A) → P x → Q x) → All P xs → All Q xs
  All-weaken_rows P Q [] f h = tt
  All-weaken_rows P Q (x ∷ xs) f h = (f x h.0, All-weaken_rows P Q xs f h.1)

  pub All-unit : (xs : List A) → All (λ x. Unit {0}) xs
  All-unit [] = tt
  All-unit (x ∷ xs) = (tt, All-unit xs)

  pub All-both : (P Q : A → Type 0) (xs : List A) → All P xs → All Q xs → All (λ x. P x × Q x) xs
  All-both P Q [] h k = tt
  All-both P Q (x ∷ xs) h k = ((h.0, k.0), All-both P Q xs h.1 k.1)

module _ {A B : Type 0} where
  pub flat_map-All :
      (P : A → Type 0) (Q : B → Type 0) (f : A → List B) (xs : List A)
      → ((x : A) → P x → All Q (f x))
      → All P xs
      → All Q (flat_map f xs)
  unfolding flat_map
  flat_map-All P Q f [] h k = tt
  flat_map-All P Q f (x ∷ xs) h k =
      All-append Q (f x) (flat_map f xs) (h x k.0) (flat_map-All P Q f xs h k.1)

  pub map-All :
      (P : A → Type 0) (Q : B → Type 0) (f : A → B) (xs : List A)
      → ((x : A) → P x → Q (f x))
      → All P xs
      → All Q (map f xs)
  map-All P Q f [] h k = tt
  map-All P Q f (x ∷ xs) h k = (h x k.0, map-All P Q f xs h k.1)

  pub length-flat_map :
      (f : A → List B) (xs : List A)
      → All (λ x. length (f x) ≡ 1) xs
      → length (flat_map f xs) ≡ length xs
  unfolding flat_map
  length-flat_map f [] h = refl
  length-flat_map f (x ∷ xs) h =
      omega (arith, length-append (f x) (flat_map f xs), length-flat_map f xs h.1, h.0)

  pub sum-map :
      (w : B → ℕ) (f : A → B) (xs : List A) → sum_of w (map f xs) ≡ sum_of (λ x. w (f x)) xs
  sum-map w f [] = refl
  sum-map w f (x ∷ xs) = omega (arith, sum-map w f xs)

  pub length-map : (f : A → B) (xs : List A) → length (map f xs) ≡ length xs
  length-map f [] = refl
  length-map f (x ∷ xs) = omega (arith, length-map f xs)

  -- A WHERE on what SELECT computes.
  pub keep_where-map :
      (p : B → Bool) (f : A → B) (xs : List A)
      → keep_where p (map f xs) ≡ map f (keep_where (λ x. p (f x)) xs)
  unfolding keep_where
  keep_where-map p f [] = refl
  keep_where-map p f (x ∷ xs) = ground (arith, keep_where-map p f xs)

module _ {A : Type 0} where
  pub keep_where_comm :
      (p q : A → Bool) (xs : List A)
      → keep_where p (keep_where q xs) ≡ keep_where q (keep_where p xs)
  unfolding keep_where
  keep_where_comm p q [] = refl
  keep_where_comm p q (x ∷ xs) = ground (arith, keep_where_comm p q xs)

  -- Two WHEREs, one on the other, are their conjunction.
  pub keep_where-both :
      (p q r : A → Bool) (xs : List A)
      → ((x : A) → r x ≡ (q x && p x))
      → keep_where p (keep_where q xs) ≡ keep_where r xs
  unfolding keep_where
  keep_where-both p q r [] agree = refl
  keep_where-both p q r (x ∷ xs) agree = ground (arith, agree x, keep_where-both p q r xs agree)

module _ {A B : Type 0} where
  pub flat_map-eq-map :
      (f : A → List B) (g : A → B) (xs : List A)
      → All (λ x. f x ≡ g x ∷ []) xs
      → flat_map f xs ≡ map g xs
  unfolding flat_map
  flat_map-eq-map f g [] h = refl
  flat_map-eq-map f g (x ∷ xs) h = cc (h.0, flat_map-eq-map f g xs h.1)

  pub map-map_self :
      (f : A → B) (g : B → A) (xs : List A) → ((x : A) → g (f x) ≡ x) → map g (map f xs) ≡ xs
  map-map_self f g [] h = refl
  map-map_self f g (x ∷ xs) h = cc (h x, map-map_self f g xs h)
