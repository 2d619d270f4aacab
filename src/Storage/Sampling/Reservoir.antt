-- ===== src/Storage/Sampling/Reservoir.antt =====
-- storage/queries/sampling.go: how many players of a bucket stay active.
use brawl_stars_guide.Base.{
  ℕ, zero, ◌&&◌, All, Bool-cases, inl, inr, suc, ◌+◌, ◌%◌, ◌≤◌, ◌<◌, ◌≡◌, refl, Bool, true, false,
  Text, text_eq_refl, List, [], ◌∷◌, some, arith, if◌then◌else◌, length, get_elem?, count_where,
  update_where, keep_where,
}
use brawl_stars_guide.Storage.Schema.{Target}
use brawl_stars_guide.Storage.Crawl.{has_tag}
use brawl_stars_guide.Storage.Sampling.{
  active_other, evictable, evict_row, victim, evict, sample_full, in_bucket,
}

get-some : (xs : List Target) (i : ℕ) → i < length xs → (x : Target) × (get_elem? xs i ≡ some x)
get-some [] i h = elim h [ ]
get-some (x ∷ xs) zero h = (x, refl)
get-some (x ∷ xs) (suc i) h = get-some xs i (omega arith)

-- An eviction never activates a row.
evict-le :
    (bucket now : ℕ) (tag other : Text) (rows : List Target)
    → count_where (active_other bucket tag) (update_where (has_tag other) (evict_row now) rows)
      ≤ count_where (active_other bucket tag) rows
unfolding count_where update_where
evict-le bucket now tag other [] = omega arith
evict-le bucket now tag other (x ∷ rows) = ground (arith, evict-le bucket now tag other rows)

-- The eviction of an evictable row takes it out of the active rows.
evict-lt :
    (bucket now : ℕ) (tag : Text) (rows : List Target) (i : ℕ) (v : Target)
    → get_elem? (keep_where (evictable bucket tag now) rows) i ≡ some v
    → count_where
        (active_other bucket tag)
        (update_where (has_tag v.player_tag) (evict_row now) rows)
      < count_where (active_other bucket tag) rows
unfolding count_where update_where keep_where
evict-lt bucket now tag [] i v h = cc
evict-lt bucket now tag (x ∷ rows) i v h =
    go (evictable bucket tag now x) refl i h (λ j. evict-lt bucket now tag rows j v)
  where
    go :
        (b : Bool)
        → evictable bucket tag now x ≡ b
        → (j : ℕ)
        → get_elem?
            (if b
              then x ∷ keep_where (evictable bucket tag now) rows
              else keep_where (evictable bucket tag now) rows)
            j
          ≡ some v
        → ((n : ℕ)
            → get_elem? (keep_where (evictable bucket tag now) rows) n ≡ some v
            → count_where
                (active_other bucket tag)
                (update_where (has_tag v.player_tag) (evict_row now) rows)
              < count_where (active_other bucket tag) rows)
        → count_where
            (active_other bucket tag)
            (update_where (has_tag v.player_tag) (evict_row now) (x ∷ rows))
          < count_where (active_other bucket tag) (x ∷ rows)
    go true e zero g later =
        ground (arith, text_eq_refl v.player_tag, evict-le bucket now tag v.player_tag rows)
    go true e (suc j) g later = ground (arith, later j g)
    go false e j g later = ground (arith, later j g)

evict_drops :
    (pick bucket : ℕ) (tag : Text) (now : ℕ) (rows : List Target)
    → 0 < length (keep_where (evictable bucket tag now) rows)
    → count_where (active_other bucket tag) (evict pick bucket tag now rows)
      < count_where (active_other bucket tag) rows
unfolding evict victim
evict_drops pick bucket tag now rows some_row =
    let candidates = keep_where (evictable bucket tag now) rows in
    let (v, found) = get-some candidates (pick % length candidates) (ground arith) in
    rw (found, evict, victim) (evict-lt bucket now tag rows _ v found)

-- A full bucket whose other active players are within the cap, with one of them not leased, is within
-- the cap again after a player is accepted: the others that stay active leave room for it.
pub sample_full-bound :
    (below : ℕ → ℕ → Bool) (pick bucket : ℕ) (tag : Text) (cap seen now : ℕ) (rows : List Target)
    → below cap seen ≡ true
    → count_where (active_other bucket tag) rows ≤ cap
    → 0 < length (keep_where (evictable bucket tag now) rows)
    → ((sample_full below pick bucket tag cap seen now rows).0 ≡ false)
      × (count_where
              (active_other bucket tag)
              (sample_full below pick bucket tag cap seen now rows).1
            + 1
          ≤ cap)
unfolding sample_full
sample_full-bound below pick bucket tag cap seen now rows accepted within spare =
    ground (arith, evict_drops pick bucket tag now rows spare)

-- The row is active in the bucket.
abbrev pub active_in : ℕ → Target → Bool
active_in bucket r = in_bucket bucket r && r.is_active

-- A lease that has not ended at the time.
abbrev pub Leased : ℕ → Target → Type 0
Leased now r = (u : ℕ) × (r.leased_until ≡ some u) × (now ≤ u)

nobody_evictable :
    (bucket now : ℕ) (tag : Text) (rows : List Target)
    → All (λ r. active_other bucket tag r ≡ true → Leased now r) rows
    → keep_where (evictable bucket tag now) rows ≡ []
unfolding keep_where
nobody_evictable bucket now tag [] h = refl
nobody_evictable bucket now tag (r ∷ rows) h = elim (Bool-cases (active_other bucket tag r)) [
  | inl active ↦
      let (u, lease, runs) = h.0 active in ground (arith, nobody_evictable bucket now tag rows h.1)
  | inr idle ↦ ground (arith, nobody_evictable bucket now tag rows h.1)
]

-- The active rows of a bucket are the player's own and the others.
count-active :
    (bucket : ℕ) (tag : Text) (rows : List Target)
    → count_where (active_in bucket) rows
      ≡ count_where (λ r. active_in bucket r && has_tag tag r) rows
        + count_where (active_other bucket tag) rows
unfolding count_where
count-active bucket tag [] = refl
count-active bucket tag (r ∷ rows) = ground (arith, count-active bucket tag rows)

nobody_evicted :
    (below : ℕ → ℕ → Bool) (pick bucket : ℕ) (tag : Text) (cap seen now : ℕ) (rows : List Target)
    → below cap seen ≡ true
    → keep_where (evictable bucket tag now) rows ≡ []
    → sample_full below pick bucket tag cap seen now rows ≡ (false, rows)
unfolding sample_full evict victim
nobody_evicted below pick bucket tag cap seen now rows accepted leased = ground arith

-- The cap can be exceeded: where the other active players of a bucket reach its cap and all of them are
-- leased, a player of the bucket who is active and accepted makes more active players than the cap.
pub sample_full-overflow :
    (below : ℕ → ℕ → Bool) (pick bucket : ℕ) (tag : Text) (cap seen now : ℕ) (rows : List Target)
    → below cap seen ≡ true
    → cap ≤ count_where (active_other bucket tag) rows
    → All (λ r. active_other bucket tag r ≡ true → Leased now r) rows
    → 0 < count_where (λ r. active_in bucket r && has_tag tag r) rows
    → ((sample_full below pick bucket tag cap seen now rows).0 ≡ false)
      × (cap
          < count_where (active_in bucket) (sample_full below pick bucket tag cap seen now rows).1)
sample_full-overflow below pick bucket tag cap seen now rows accepted full leased own =
    rw
      (nobody_evicted below pick bucket tag cap seen now rows accepted
        (nobody_evictable bucket now tag rows leased))
      (refl, omega (arith, count-active bucket tag rows))
