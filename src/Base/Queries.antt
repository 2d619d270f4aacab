-- ===== src/Base/Queries.antt =====
-- JOIN, GROUP BY, ORDER BY and COUNT(DISTINCT …) on lists of rows.
use Prim.Native.Nat.{ℕ, ◌+◌, ◌≤◌}
use mathlib.Core.Path.{◌≡◌, refl, ◌∙◌, sym}
use mathlib.Core.Logic.{inl, inr}
use mathlib.Core.Bool.{Bool, true, false}
use mathlib.Core.List.{List, [], ◌∷◌, ◌++◌}
use native.Mathlib.Omega.{arith}
use brawl_stars_guide.Base.Tests.{◌==◌, if◌then◌else◌, Bool-cases}
use brawl_stars_guide.Base.Rows.{length, any_where, All}

-- The rows of a join: for each row of the left table, those that it meets.
unfoldable pub flat_map {ℓ κ} : {A : Type ℓ} {B : Type κ} → (A → List B) → List A → List B
flat_map f [] = []
flat_map f (x ∷ xs) = f x ++ flat_map f xs

-- A group: the row that opened it, and its rows.
pub record Group (A : Type 0) : Type 0 where
  pub first : A
  pub rows : List A

module _ {A : Type 0} where
  unfoldable pub add_row : (A → A → Bool) → A → List (Group A) → List (Group A)
  add_row same x [] = record { first = x; rows = x ∷ [] } ∷ []
  add_row same x (g ∷ gs) =
      let rest = add_row same x gs in
      if same g.first x then record g { rows = x ∷ g.rows } ∷ gs else g ∷ rest

  -- GROUP BY the key that `same` compares.
  unfoldable pub group_by : (A → A → Bool) → List A → List (Group A)
  unfolding add_row
  group_by same [] = []
  group_by same (x ∷ xs) = add_row same x (group_by same xs)

  unfoldable pub insert_row : (A → A → Bool) → A → List A → List A
  insert_row before x [] = x ∷ []
  insert_row before x (y ∷ ys) =
      let rest = insert_row before x ys in if before x y then x ∷ y ∷ ys else y ∷ rest

  -- ORDER BY; `before` is strict, and the database may order the rows that it does not tell apart.
  unfoldable pub order_by : (A → A → Bool) → List A → List A
  unfolding insert_row
  order_by before [] = []
  order_by before (x ∷ xs) = insert_row before x (order_by before xs)

  abbrev pub sum_of : (A → ℕ) → List A → ℕ
  sum_of w [] = 0
  sum_of w (x ∷ xs) = w x + sum_of w xs

-- COUNT(DISTINCT …)
unfoldable pub count_distinct : List ℕ → ℕ
count_distinct [] = 0
count_distinct (n ∷ ns) = (if any_where (λ m. m == n) ns then 0 else 1) + count_distinct ns

pub count_distinct-le-length : (ns : List ℕ) → count_distinct ns ≤ length ns
unfolding count_distinct
count_distinct-le-length [] = omega arith
count_distinct-le-length (n ∷ ns) = ground (arith, count_distinct-le-length ns)

pub count_distinct_pos : (n : ℕ) (ns : List ℕ) → 1 ≤ count_distinct (n ∷ ns)
unfolding count_distinct any_where
count_distinct_pos n [] = ground arith
count_distinct_pos n (m ∷ ns) = ground (arith, count_distinct_pos m ns)

module _ {A : Type 0} where
  sum-insert :
      (w : A → ℕ) (before : A → A → Bool) (x : A) (ys : List A)
      → sum_of w (insert_row before x ys) ≡ w x + sum_of w ys
  unfolding insert_row
  sum-insert w before x [] = refl
  sum-insert w before x (y ∷ ys) = ground (arith, sum-insert w before x ys)

  -- ORDER BY neither loses nor adds a row.
  pub sum-order_by :
      (w : A → ℕ) (before : A → A → Bool) (xs : List A)
      → sum_of w (order_by before xs) ≡ sum_of w xs
  unfolding order_by
  sum-order_by w before [] = refl
  sum-order_by w before (x ∷ xs) =
      omega (arith, sum-insert w before x (order_by before xs), sum-order_by w before xs)

  pub length-order_by :
      (before : A → A → Bool) (xs : List A) → length (order_by before xs) ≡ length xs
  length-order_by before xs =
      sym (length-sum (order_by before xs)) ∙ sum-order_by (λ x. 1) before xs ∙ length-sum xs
    where
      length-sum : (ys : List A) → sum_of (λ y. 1) ys ≡ length ys
      length-sum [] = refl
      length-sum (y ∷ ys) = omega (arith, length-sum ys)

  All-insert :
      (P : A → Type 0) (before : A → A → Bool) (x : A) (ys : List A)
      → P x
      → All P ys
      → All P (insert_row before x ys)
  unfolding insert_row
  All-insert P before x [] h k = (h, tt)
  All-insert P before x (y ∷ ys) h k = elim (Bool-cases (before x y)) [
    | inl t ↦ rw (t, insert_row) (h, k)
    | inr f ↦ rw (f, insert_row) (k.0, All-insert P before x ys h k.1)
  ]

  pub All-order_by :
      (P : A → Type 0) (before : A → A → Bool) (xs : List A) → All P xs → All P (order_by before xs)
  unfolding order_by
  All-order_by P before [] h = tt
  All-order_by P before (x ∷ xs) h = All-insert P before x _ h.0 (All-order_by P before xs h.1)

  All-uninsert :
      (P : A → Type 0) (before : A → A → Bool) (x : A) (ys : List A)
      → All P (insert_row before x ys)
      → P x × All P ys
  unfolding insert_row
  All-uninsert P before x [] h = h
  All-uninsert P before x (y ∷ ys) h = split (before x y) (λ k. All-uninsert P before x ys k) h
    where
      split :
          (b : Bool)
          → (All P (insert_row before x ys) → P x × All P ys)
          → All P (if b then x ∷ (y ∷ ys) else y ∷ insert_row before x ys)
          → P x × (P y × All P ys)
      split true later k = k
      split false later k = let (mine, rest) = later k.1 in (mine, (k.0, rest))

  -- ORDER BY keeps every row.
  pub All-unorder :
      (P : A → Type 0) (before : A → A → Bool) (xs : List A) → All P (order_by before xs) → All P xs
  unfolding order_by
  All-unorder P before [] h = tt
  All-unorder P before (x ∷ xs) h =
      let (mine, rest) = All-uninsert P before x (order_by before xs) h in
      (mine, All-unorder P before xs rest)

  -- No row comes before its predecessor.
  abbrev pub InOrder : (A → A → Bool) → List A → Type 0
  InOrder before [] = Unit
  InOrder before (x ∷ []) = Unit
  InOrder before (x ∷ (y ∷ ys)) = (before y x ≡ false) × InOrder before (y ∷ ys)

  insert-InOrder :
      (before : A → A → Bool) (x : A) (ys : List A)
      → ((a b : A) → before a b ≡ true → before b a ≡ false)
      → InOrder before ys
      → InOrder before (insert_row before x ys)
  unfolding insert_row
  insert-InOrder before x [] asym h = tt
  insert-InOrder before x (y ∷ []) asym h = ground (arith, asym x y)
  insert-InOrder before x (y ∷ (z ∷ ys)) asym h =
      ground (arith, asym x y, insert-InOrder before x (z ∷ ys) asym h.1)

  pub order_by-InOrder :
      (before : A → A → Bool) (xs : List A)
      → ((a b : A) → before a b ≡ true → before b a ≡ false)
      → InOrder before (order_by before xs)
  unfolding order_by
  order_by-InOrder before [] asym = tt
  order_by-InOrder before (x ∷ xs) asym =
      insert-InOrder before x _ asym (order_by-InOrder before xs asym)
