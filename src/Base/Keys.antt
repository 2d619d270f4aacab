-- ===== src/Base/Keys.antt =====
-- Unique keys of a table.
use mathlib.Core.Path.{◌≡◌, refl}
use mathlib.Core.Logic.{inl, inr}
use mathlib.Core.Bool.{Bool, true, false}
use mathlib.Core.List.{List, [], ◌∷◌, ◌++◌}
use native.Mathlib.Omega.{arith}
use brawl_stars_guide.Base.Tests.{Bool-cases}
use brawl_stars_guide.Base.Rows.{any_where}

module _ {ℓ} {A : Type ℓ} where
  -- No two rows have the same key.
  unfoldable pub Distinct : (A → A → Bool) → List A → Type 0
  Distinct same [] = Unit {0}
  Distinct same (x ∷ xs) = (any_where (same x) xs ≡ false) × Distinct same xs

  pub any-append_true :
      (p : A → Bool) (xs : List A) (r : A)
      → any_where p xs ≡ true
      → any_where p (xs ++ r ∷ []) ≡ true
  unfolding any_where
  any-append_true p [] r h = cc
  any-append_true p (x ∷ xs) r h = ground (arith, any-append_true p xs r)

  pub any-append_hit :
      (p : A → Bool) (xs : List A) (r : A) → p r ≡ true → any_where p (xs ++ r ∷ []) ≡ true
  unfolding any_where
  any-append_hit p [] r h = ground arith
  any-append_hit p (x ∷ xs) r h = ground (arith, any-append_hit p xs r)

  pub any-weaken :
      (p q : A → Bool) (xs : List A)
      → ((x : A) → p x ≡ true → q x ≡ true)
      → any_where p xs ≡ true
      → any_where q xs ≡ true
  unfolding any_where
  any-weaken p q [] f h = cc
  any-weaken p q (x ∷ xs) f h = ground (arith, f x, any-weaken p q xs f)

  any-append_false :
      (p : A → Bool) (xs : List A) (r : A)
      → any_where p xs ≡ false
      → p r ≡ false
      → any_where p (xs ++ r ∷ []) ≡ false
  unfolding any_where
  any-append_false p [] r h k = ground arith
  any-append_false p (x ∷ xs) r h k = ground (arith, any-append_false p xs r)

  -- An INSERT after a test that the key is new.
  pub append-Distinct :
      (same : A → A → Bool) (xs : List A) (r : A)
      → ((x y : A) → same x y ≡ true → same y x ≡ true)
      → any_where (same r) xs ≡ false
      → Distinct same xs
      → Distinct same (xs ++ r ∷ [])
  unfolding Distinct any_where
  append-Distinct same [] r symmetric h d = (refl, tt)
  append-Distinct same (x ∷ xs) r symmetric h d = elim (Bool-cases (same x r)) [
    | inl eq ↦ absurd (ground (arith, symmetric x r eq))
    | inr ne ↦ (
      any-append_false (same x) xs r d.0 ne,
      append-Distinct same xs r symmetric (ground arith) d.1,
    )
  ]
