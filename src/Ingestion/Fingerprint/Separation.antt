-- ===== src/Ingestion/Fingerprint/Separation.antt =====
-- ingestion/fingerprint.go: what two entries of one fingerprint have in common.
use mathlib.Core.List.Perm
use mathlib.Core.List.{Perm}
use brawl_stars_guide.Base.{◌≡◌, ◌≢◌, refl, sym, subst, arith, Text, List, [], ◌∷◌, map, All}
use brawl_stars_guide.Apiclient.Tags.{normalize_tag}
use brawl_stars_guide.Ingestion.Runtime.{Runtime}
use brawl_stars_guide.Ingestion.Fingerprint.{
  BattleKey, sort_strings, insert_sorted, join_bar, normal_tags, raw_key, compute_fingerprint,
}
use brawl_stars_guide.Ingestion.Fingerprint.Sorting.{perm-sort}
use brawl_stars_guide.Ingestion.Fingerprint.Printing.{
  NoBar, split_bar, decimal-injective, decimal-NoBar, join-injective,
}

-- The tags in their normal form, in the order of the entry.
abbrev pub normal_form : Runtime → BattleKey → List Text
normal_form rt k = map (normalize_tag rt.wide) k.participant_tags

insert-NoBar : (t : Text) (ts : List Text) → NoBar t → All NoBar ts → All NoBar (insert_sorted t ts)
unfolding insert_sorted
insert-NoBar t [] h k = (h, tt)
insert-NoBar t (s ∷ ss) h k = ground (arith, insert-NoBar t ss h k.1)

sort-NoBar : (ts : List Text) → All NoBar ts → All NoBar (sort_strings ts)
unfolding sort_strings
sort-NoBar [] h = tt
sort-NoBar (t ∷ ts) h = insert-NoBar t _ h.0 (sort-NoBar ts h.1)

insert-ne : (t : Text) (ts : List Text) → insert_sorted t ts ≢ []
unfolding insert_sorted
insert-ne t [] e = cc
insert-ne t (s ∷ ss) e = ground arith

sort-ne : (ts : List Text) → ts ≢ [] → sort_strings ts ≢ []
unfolding sort_strings
sort-ne [] h e = h refl
sort-ne (t ∷ ts) h e = insert-ne t _ e

join_sorted-injective :
    (xs ys : List Text)
    → xs ≢ []
    → ys ≢ []
    → All NoBar xs
    → All NoBar ys
    → join_bar xs ≡ join_bar ys
    → xs ≡ ys
join_sorted-injective [] ys h k a b e = absurd (h refl)
join_sorted-injective (x ∷ xs) [] h k a b e = absurd (k refl)
join_sorted-injective (x ∷ xs) (y ∷ ys) h k a b e = join-injective x y xs ys a b e

-- Different battles get different fingerprints: unless SHA-256 collides on the two hashed texts, two
-- keys of one fingerprint have the same time, the same event and, up to order, the same normalized
-- tags. The format of times is assumed to tell the two times apart and to be free of '|', and
-- so are the tags, of which each key has at least one.
pub fingerprint_separates :
    (rt : Runtime) (a b : BattleKey)
    → (rt.sha256_hex (raw_key rt a) ≡ rt.sha256_hex (raw_key rt b) → raw_key rt a ≡ raw_key rt b)
    → (rt.format_time a.battle_time ≡ rt.format_time b.battle_time → a.battle_time ≡ b.battle_time)
    → NoBar (rt.format_time a.battle_time)
    → NoBar (rt.format_time b.battle_time)
    → All NoBar (normal_form rt a)
    → All NoBar (normal_form rt b)
    → normal_form rt a ≢ []
    → normal_form rt b ≢ []
    → compute_fingerprint rt a ≡ compute_fingerprint rt b
    → (a.battle_time ≡ b.battle_time)
      × (a.supcell_event_id ≡ b.supcell_event_id)
      × Perm (normal_form rt a) (normal_form rt b)
unfolding compute_fingerprint raw_key normal_tags
fingerprint_separates rt a b collision time p q u v some_a some_b h =
    let (t, rest) = split_bar _ _ _ _ p q (collision h) in
    let (id, tags) =
      split_bar _ _ _ _ (decimal-NoBar a.supcell_event_id) (decimal-NoBar b.supcell_event_id)
        rest in
    let sorted : sort_strings (normal_form rt a) ≡ sort_strings (normal_form rt b) =
      join_sorted-injective _ _ (sort-ne _ some_a) (sort-ne _ some_b) (sort-NoBar _ u)
        (sort-NoBar _ v) tags in
    (
      time t,
      decimal-injective a.supcell_event_id b.supcell_event_id id,
      Perm.trans (Perm.symm (perm-sort (normal_form rt a)))
          (subst (λ z. Perm z (normal_form rt b)) (sym sorted) (perm-sort (normal_form rt b))),
    )
