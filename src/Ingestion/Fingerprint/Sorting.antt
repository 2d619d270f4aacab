-- ===== src/Ingestion/Fingerprint/Sorting.antt =====
-- ingestion/fingerprint.go: sorting and permutations of tags.
use mathlib.Core.List.Perm
use mathlib.Core.List.{Perm, Permᴰ}
use mathlib.Core.Logic.{∥∥₁_elim}
use brawl_stars_guide.Base.{
  ◌≡◌, refl, true, false, Text, text_le, List, [], ◌∷◌, arith, inl, inr, Bool-cases, ◌∙◌,
}
use brawl_stars_guide.Ingestion.Fingerprint.{insert_sorted, sort_strings}

text_le-total : (s t : Text) → text_le s t ≡ false → text_le t s ≡ true
unfolding text_le
text_le-total [] t h = cc
text_le-total (x ∷ s) [] h = refl
text_le-total (x ∷ s) (y ∷ t) h = ground (arith, text_le-total s t)

text_le-antisym : (s t : Text) → text_le s t ≡ true → text_le t s ≡ true → s ≡ t
unfolding text_le
text_le-antisym [] [] h k = refl
text_le-antisym [] (y ∷ t) h k = cc
text_le-antisym (x ∷ s) [] h k = cc
text_le-antisym (x ∷ s) (y ∷ t) h k = ground (arith, text_le-antisym s t)

text_le_trans : (s t u : Text) → text_le s t ≡ true → text_le t u ≡ true → text_le s u ≡ true
unfolding text_le
text_le_trans [] t u h k = refl
text_le_trans (x ∷ s) [] u h k = cc
text_le_trans (x ∷ s) (y ∷ t) [] h k = cc
text_le_trans (x ∷ s) (y ∷ t) (z ∷ u) h k = ground (arith, text_le_trans s t u)

insert_swap :
    (a b : Text) (ts : List Text)
    → insert_sorted a (insert_sorted b ts) ≡ insert_sorted b (insert_sorted a ts)
unfolding insert_sorted
insert_swap a b [] = ground (arith, text_le-total a b, text_le-antisym a b)
insert_swap a b (t ∷ ts) = ground (
  arith,
  text_le-total a b,
  text_le-antisym a b,
  text_le_trans a b t,
  text_le_trans b a t,
  text_le-total a t,
  text_le-total b t,
  text_le_trans t a b,
  text_le_trans t b a,
  insert_swap a b ts,
)

sort-permᴰ : {xs ys : List Text} → Permᴰ xs ys → sort_strings xs ≡ sort_strings ys
unfolding sort_strings
sort-permᴰ Permᴰ.nil = refl
sort-permᴰ (Permᴰ.cons {l₁ = xs} {l₂ = ys} e p) = cc (sort-permᴰ p, e)
sort-permᴰ (Permᴰ.swap {a = a} {b = b} {l = l} e f) = cc (insert_swap a b (sort_strings l), e, f)
sort-permᴰ (Permᴰ.trans p q) = sort-permᴰ p ∙ sort-permᴰ q

text_lists-IsSet : IsSet (List Text)
text_lists-IsSet = hlevel

-- Sorting forgets the order.
pub sort-perm : {xs ys : List Text} → Perm xs ys → sort_strings xs ≡ sort_strings ys
sort-perm p = ∥∥₁_elim p (text_lists-IsSet _ _) sort-permᴰ

insert-perm : (t : Text) (ts : List Text) → Perm (insert_sorted t ts) (t ∷ ts)
unfolding insert_sorted
insert-perm t [] = Perm.refl (t ∷ [])
insert-perm t (s ∷ ss) = elim (Bool-cases (text_le t s)) [
  | inl le ↦ rw (le, insert_sorted) (Perm.refl (t ∷ s ∷ ss))
  | inr gt ↦ rw (gt, insert_sorted) (Perm.trans (Perm.cons s (insert-perm t ss)) (Perm.swap t s ss))
]

-- And it keeps the tags.
pub perm-sort : (ts : List Text) → Perm (sort_strings ts) ts
unfolding sort_strings
perm-sort [] = Perm.refl []
perm-sort (t ∷ ts) = Perm.trans (insert-perm t (sort_strings ts)) (Perm.cons t (perm-sort ts))
