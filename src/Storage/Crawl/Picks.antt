-- ===== src/Storage/Crawl/Picks.antt =====
-- storage/queries: which row a statement on the queue picks, and what it makes of the rows.
use brawl_stars_guide.Base.{
  ℕ, ◌≤◌, ◌≡◌, refl, Bool, true, ◌&&◌, ◌⊎◌, Text, text_eq, text_eq_sound, text_eq_refl, String,
  Option, none, some, List, [], ◌∷◌, ◌++◌, ℤ, arith, sym, subst, find_where, if◌then◌else◌,
  find_where_sound,
}
use brawl_stars_guide.Storage.Schema.{Db, Target}
use brawl_stars_guide.Storage.Crawl.{has_tag, claimable, lease_over}
use brawl_stars_guide.Storage.Players.{enqueue_statement, new_target}
use brawl_stars_guide.Storage.Sampling.{sample, sample_full, evict, evictable}
use brawl_stars_guide.Storage.Crawl.Rows.{HasOneRow}

-- The row that a statement picks for its tag is the player's own, if the tag is the player's.
pub picked :
    (tag : Text) (rows : List Target) (x r : Target)
    → HasOneRow tag rows
    → find_where (has_tag tag) rows ≡ some x
    → (has_tag tag r ≡ true → r ≡ x)
    → has_tag r.player_tag x ≡ true
    → r ≡ x
picked tag rows x r one found only hit = only (
    subst (λ t. text_eq r.player_tag t ≡ true)
      (text_eq_sound _ _ (find_where_sound (has_tag tag) rows x found))
      (subst (λ t. text_eq r.player_tag t ≡ true) (sym (text_eq_sound _ _ hit))
        (text_eq_refl r.player_tag)))

pub claimable-parts :
    (now : ℕ) (unlocked : Bool) (r : Target)
    → (claimable now r && unlocked) ≡ true
    → (r.is_active ≡ true) × (r.next_crawl_at ≤ now) × (lease_over now r.leased_until ≡ true)
unfolding claimable
claimable-parts now unlocked r h = (ground arith, ground arith, ground arith)

pub evictable-parts :
    (bucket now : ℕ) (by : Text) (v : Target)
    → evictable bucket by now v ≡ true
    → (v.is_active ≡ true) × (lease_over now v.leased_until ≡ true)
evictable-parts bucket now by v h = (ground arith, ground arith)

pub sample_cases :
    (below : ℕ → ℕ → Bool) (pick bucket : ℕ) (by : Text) (cap : ℤ) (now : ℕ) (rows : List Target)
    → ((sample below pick bucket by cap now rows).1 ≡ rows)
      ⊎ ((sample below pick bucket by cap now rows).1 ≡ evict pick bucket by now rows)
unfolding sample sample_full
sample_cases below pick bucket by cap now rows = ground arith

pub enqueue_cases :
    (new : Text) (source : String) (via : Text) (now : ℕ) (d : Db)
    → let e = (enqueue_statement new source via now d).1 in
      (e.targets ≡ d.targets) ⊎ (e.targets ≡ d.targets ++ new_target new source via now ∷ [])
unfolding enqueue_statement
enqueue_cases new source via now d = ground arith

abbrev pub found_or : (Target → Bool) → Target → Option Target → Option Target
found_or p y none = if p y then some y else none
found_or p y (some x) = some x

pub find-snoc :
    (tag : Text) (y : Target) (rows : List Target)
    → find_where (has_tag tag) (rows ++ y ∷ [])
      ≡ found_or (has_tag tag) y (find_where (has_tag tag) rows)
unfolding find_where
find-snoc tag y [] = refl
find-snoc tag y (r ∷ rows) = ground (arith, find-snoc tag y rows)
