-- ===== src/Base/Rows.antt =====
-- A table is a list of rows; these are the WHERE, COUNT, UPDATE and LIMIT 1 of a statement.
use Prim.Native.Nat.{ℕ, zero, suc, ◌+◌}
use mathlib.Core.Path.{◌≡◌, refl, ap, subst}
use mathlib.Core.Bool.{Bool, true, false, ◌||◌}
use mathlib.Core.List.{List, [], ◌∷◌, ◌++◌}
use mathlib.Core.Option.{Option, none, some}
use native.Mathlib.Omega.{arith}
use brawl_stars_guide.Base.Tests.{if◌then◌else◌}

module _ {ℓ} {A : Type ℓ} where
  abbrev pub length : List A → ℕ
  length [] = 0
  length (x ∷ xs) = suc (length xs)

  pub length-append : (xs ys : List A) → length (xs ++ ys) ≡ length xs + length ys
  length-append [] ys = omega arith
  length-append (x ∷ xs) ys = omega (arith, length-append xs ys)

  abbrev pub get_elem? : List A → ℕ → Option A
  get_elem? [] i = none
  get_elem? (x ∷ xs) zero = some x
  get_elem? (x ∷ xs) (suc i) = get_elem? xs i

  unfoldable pub any_where : (A → Bool) → List A → Bool
  any_where p [] = false
  any_where p (x ∷ xs) = p x || any_where p xs

  unfoldable pub count_where : (A → Bool) → List A → ℕ
  count_where p [] = 0
  count_where p (x ∷ xs) = (if p x then 1 else 0) + count_where p xs

  unfoldable pub update_where : (A → Bool) → (A → A) → List A → List A
  update_where p f [] = []
  update_where p f (x ∷ xs) = (if p x then f x else x) ∷ update_where p f xs

  unfoldable pub find_where : (A → Bool) → List A → Option A
  find_where p [] = none
  find_where p (x ∷ xs) = if p x then some x else find_where p xs

  unfoldable pub keep_where : (A → Bool) → List A → List A
  keep_where p [] = []
  keep_where p (x ∷ xs) = let rest = keep_where p xs in if p x then x ∷ rest else rest

  -- ORDER BY … LIMIT 1, the first row of those that no row precedes.
  abbrev keep_least : (A → A → Bool) → A → Option A → Option A
  keep_least before x none = some x
  keep_least before x (some y) = if before y x then some y else some x

  unfoldable pub least_where : (A → Bool) → (A → A → Bool) → List A → Option A
  least_where p before [] = none
  least_where p before (x ∷ xs) =
      let rest = least_where p before xs in if p x then keep_least before x rest else rest

  -- A statement of all rows, by recursion.
  abbrev pub All {κ} : (A → Type κ) → List A → Type κ
  All P [] = Unit
  All P (x ∷ xs) = P x × All P xs

  pub All-append {κ} : (P : A → Type κ) (xs ys : List A) → All P xs → All P ys → All P (xs ++ ys)
  All-append P [] ys h k = k
  All-append P (x ∷ xs) ys h k = (h.0, All-append P xs ys h.1 k)

module _ {ℓ κ} {A : Type ℓ} {B : Type κ} where
  -- A view of the row that a query finds.
  abbrev pub view_of : (A → B) → Option A → Option B
  view_of view none = none
  view_of view (some a) = some (view a)

  -- An UPDATE that keeps the key and the view of the row with the key.
  pub find-update :
      (p q : A → Bool) (f : A → A) (view : A → B) (rows : List A)
      → ((r : A) → p (f r) ≡ p r)
      → ((r : A) → p r ≡ true → q r ≡ true → view (f r) ≡ view r)
      → view_of view (find_where p (update_where q f rows)) ≡ view_of view (find_where p rows)
  unfolding find_where update_where
  find-update p q f view [] key same = refl
  find-update p q f view (x ∷ rows) key same =
      ground (arith, key x, same x, find-update p q f view rows key same)

  -- An INSERT of later rows.
  pub find-append :
      (p : A → Bool) (view : A → B) (rows more : List A) (b : B)
      → view_of view (find_where p rows) ≡ some b
      → view_of view (find_where p (rows ++ more)) ≡ some b
  unfolding find_where
  find-append p view [] more b h = cc
  find-append p view (x ∷ rows) more b h = ground (arith, find-append p view rows more b)

module _ {ℓ} {A : Type ℓ} where
  -- The row that a WHERE finds satisfies it.
  pub find_where_sound :
      (p : A → Bool) (xs : List A) (r : A) → find_where p xs ≡ some r → p r ≡ true
  unfolding find_where
  find_where_sound p [] r h = absurd (cc)
  find_where_sound p (x ∷ xs) r h = ground (arith, find_where_sound p xs r)

  pub get-All {κ} :
      (P : A → Type κ) (xs : List A) (i : ℕ) (x : A) → All P xs → get_elem? xs i ≡ some x → P x
  get-All P [] i x h e = absurd (cc)
  get-All P (y ∷ ys) zero x h e = let same : y ≡ x = ground arith in subst P same h.0
  get-All P (y ∷ ys) (suc i) x h e = get-All P ys i x h.1 e

  -- A row that a WHERE keeps satisfies it.
  pub keep_where-get :
      (p : A → Bool) (xs : List A) (i : ℕ) (x : A)
      → get_elem? (keep_where p xs) i ≡ some x
      → p x ≡ true
  unfolding keep_where
  keep_where-get p [] i x h = cc
  keep_where-get p (y ∷ ys) i x h = kept (p y) refl i h (λ j. keep_where-get p ys j x)
    where
      kept :
          (b : Bool)
          → p y ≡ b
          → (j : ℕ) → get_elem? (if b then y ∷ keep_where p ys else keep_where p ys) j ≡ some x
          → ((n : ℕ) → get_elem? (keep_where p ys) n ≡ some x → p x ≡ true)
          → p x ≡ true
      kept true e zero g later = cc
      kept true e (suc j) g later = later j g
      kept false e j g later = later j g

  -- The row that ORDER BY … LIMIT 1 gives is one of the rows.
  pub least_where-All {κ} :
      (P : A → Type κ) (p : A → Bool) (before : A → A → Bool) (xs : List A) (r : A)
      → All P xs
      → least_where p before xs ≡ some r
      → P r
  unfolding least_where
  least_where-All P p before [] r a h = cc
  least_where-All P p before (x ∷ xs) r a h =
      go (p x) refl (least_where p before xs) refl (λ s. least_where-All P p before xs s a.1)
    where
      go :
          (b : Bool)
          → p x ≡ b
          → (o : Option A) → least_where p before xs ≡ o
          → ((s : A) → least_where p before xs ≡ some s → P s)
          → P r
      go true e none q ih = let same : x ≡ r = ground arith in subst P same (a.0)
      go true e (some y) q ih = kept (before y x) refl
        where
          kept : (b : Bool) → before y x ≡ b → P r
          kept true t = let same : y ≡ r = ground arith in subst P same (ih y q)
          kept false t = let same : x ≡ r = ground arith in subst P same (a.0)
      go false e o q ih = ih r (ground arith)

  -- An UPDATE of the row that a query finds.
  pub find-update_hit :
      (p q : A → Bool) (f : A → A) (rows : List A) (r : A)
      → ((x : A) → p (f x) ≡ p x)
      → find_where p rows ≡ some r
      → q r ≡ true
      → find_where p (update_where q f rows) ≡ some (f r)
  unfolding find_where update_where
  find-update_hit p q f [] r key h t = cc
  find-update_hit p q f (x ∷ rows) r key h t = go (p x) refl (find-update_hit p q f rows r key)
    where
      go :
          (b : Bool)
          → p x ≡ b
          → (find_where p rows ≡ some r
              → q r ≡ true
              → find_where p (update_where q f rows) ≡ some (f r))
          → find_where p (update_where q f (x ∷ rows)) ≡ some (f r)
      go true e ih =
          let same : x ≡ r = ground arith in ground (arith, key x, key r, ap q same, ap f same)
      go false e ih = ground (arith, key x, ih (ground arith) t)
