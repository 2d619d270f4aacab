-- ===== src/Storage/Crawl/Counts.antt =====
-- storage/queries: how many rows a player has, over updates and inserts of the queue.
use brawl_stars_guide.Base.{
  ℕ, ◌≡◌, refl, Bool, true, false, Text, List, [], ◌∷◌, ◌++◌, arith, count_where, update_where,
  if◌then◌else◌,
}
use brawl_stars_guide.Storage.Schema.{Target}
use brawl_stars_guide.Storage.Crawl.{has_tag}
use brawl_stars_guide.Storage.Crawl.History.{HasGeneration}

module _ (tag : Text) (gen : ℕ) (q : Target → Bool) (f : Target → Target) where
  pub count-update :
      (rows : List Target)
      → ((r : Target) → has_tag tag (f r) ≡ has_tag tag r)
      → count_where (has_tag tag) (update_where q f rows) ≡ count_where (has_tag tag) rows
  unfolding count_where update_where
  count-update [] same = refl
  count-update (r ∷ rows) same = ground (arith, same r, count-update rows same)

  pub HasGeneration-update :
      (rows : List Target) (old : ℕ)
      → ((r : Target) → has_tag tag (f r) ≡ has_tag tag r)
      → ((r : Target)
          → has_tag tag r ≡ true
          → r.crawl_generation ≡ old
          → (if q r then f r else r).crawl_generation ≡ gen)
      → HasGeneration tag old rows
      → HasGeneration tag gen (update_where q f rows)
  unfolding update_where
  HasGeneration-update [] old same sets h = tt
  HasGeneration-update (r ∷ rows) old same sets h =
      (ground (arith, same r, sets r, h.0), HasGeneration-update rows old same sets h.1)

pub count-append :
    (tag : Text) (x : Target)
    → has_tag tag x ≡ false
    → (rows : List Target)
    → count_where (has_tag tag) (rows ++ x ∷ []) ≡ count_where (has_tag tag) rows
unfolding count_where
count-append tag x other [] = ground (arith, other)
count-append tag x other (r ∷ rows) = ground (arith, count-append tag x other rows)
