-- ===== src/Ingestion/Fingerprint/Printing.antt =====
-- ingestion/fingerprint.go: reading back the parts of the text that is hashed.
use brawl_stars_guide.Base.{
  ℕ, zero, suc, ◌+◌, ◌*◌, ◌-◌, ◌/◌, ◌%◌, ◌<◌, ◌≡◌, ◌≢◌, sym, ap, ◌∙◌, Text, List, [], ◌∷◌, ◌++◌,
  arith, All, ltb, Bool-cases, inl, inr,
}
use brawl_stars_guide.Ingestion.Fingerprint.{decimal_from, decimal, join_bar}

-- A text without the separator '|'.
abbrev pub NoBar : Text → Type 0
NoBar = All (λ c. c ≢ b'|')

pub split_bar :
    (s t u v : Text) → NoBar s → NoBar t → s ++ b'|' ∷ u ≡ t ++ b'|' ∷ v → (s ≡ t) × (u ≡ v)
split_bar [] [] u v h k e = ground (arith)
split_bar [] (y ∷ t) u v h k e = ground (arith)
split_bar (x ∷ s) [] u v h k e = ground (arith)
split_bar (x ∷ s) (y ∷ t) u v h k e = ground (arith, split_bar s t u v h.1 k.1)

-- The number that a text of digits denotes, after the digits of `n`.
unfoldable value : ℕ → Text → ℕ
value n [] = n
value n (c ∷ cs) = value (n * 10 + (c - b'0')) cs

read_digit : (n m : ℕ) (acc : Text) → m ≡ n → value m acc ≡ value n acc
read_digit n m acc e = ap (λ k. value k acc) e

value-decimal_from : (f n : ℕ) (acc : Text) → n < f → value 0 (decimal_from f n acc) ≡ value n acc
unfolding value decimal_from
value-decimal_from zero n acc h = absurd (omega arith)
value-decimal_from (suc f) n acc h = elim (Bool-cases (ltb n 10)) [
  | inl small ↦ rw (small, decimal_from) (read_digit n _ acc (omega arith))
  | inr large ↦
      rw (large, decimal_from)
        (value-decimal_from f (n / 10) ((b'0' + n % 10) ∷ acc) (ground arith)
          ∙ read_digit n _ acc (omega arith))
]

value-decimal : (n : ℕ) → value 0 (decimal n) ≡ n
unfolding value decimal
value-decimal n = value-decimal_from (suc n) n [] (omega arith)

pub decimal-injective : (m n : ℕ) → decimal m ≡ decimal n → m ≡ n
decimal-injective m n h = sym (value-decimal m) ∙ ap (value 0) h ∙ value-decimal n

decimal_from-NoBar : (f n : ℕ) (acc : Text) → NoBar acc → NoBar (decimal_from f n acc)
unfolding decimal_from
decimal_from-NoBar zero n acc h = h
decimal_from-NoBar (suc f) n acc h = elim (Bool-cases (ltb n 10)) [
  | inl small ↦ rw (small, decimal_from) (ground arith, h)
  | inr large ↦
      rw (large, decimal_from)
        (decimal_from-NoBar f (n / 10) ((b'0' + n % 10) ∷ acc) (ground arith, h))
]

pub decimal-NoBar : (n : ℕ) → NoBar (decimal n)
unfolding decimal
decimal-NoBar n = decimal_from-NoBar (suc n) n [] tt

NoBar-ne : (s t u : Text) → NoBar s → s ≢ t ++ b'|' ∷ u
NoBar-ne [] [] u h e = ground arith
NoBar-ne [] (y ∷ t) u h e = ground arith
NoBar-ne (x ∷ s) [] u h e = ground arith
NoBar-ne (x ∷ s) (y ∷ t) u h e = ground (arith, NoBar-ne s t u h.1)

pub join-injective :
    (x y : Text) (xs ys : List Text)
    → All NoBar (x ∷ xs)
    → All NoBar (y ∷ ys)
    → join_bar (x ∷ xs) ≡ join_bar (y ∷ ys)
    → x ∷ xs ≡ y ∷ ys
unfolding join_bar
join-injective x y [] [] h k e = ap (λ t. t ∷ []) e
join-injective x y [] (y' ∷ ys) h k e = absurd (NoBar-ne x y _ h.0 e)
join-injective x y (x' ∷ xs) [] h k e = absurd (NoBar-ne y x _ k.0 (sym e))
join-injective x y (x' ∷ xs) (y' ∷ ys) h k e =
    let (first, rest) = split_bar x y _ _ h.0 k.0 e in
    cc (first, join-injective x' y' xs ys h.1 k.1 rest)
