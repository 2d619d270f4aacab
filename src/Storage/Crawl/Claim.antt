-- ===== src/Storage/Crawl/Claim.antt =====
-- storage/queries/crawl.go: the lease that a claim takes.
use brawl_stars_guide.Base.{
  ℕ, ◌+◌, ◌≤◌, ◌≡◌, Bool, true, false, ◌&&◌, not, Text, text_eq, some, List, [], ◌∷◌, arith, All,
  update_where, incr32, ok, least_where-All,
}
use brawl_stars_guide.Storage.Schema.{Db, Target}
use brawl_stars_guide.Storage.Crawl.{
  has_tag, claimable, lease_row, lease_time, claim_statement, claim_of, next_target, comes_before,
}
use brawl_stars_guide.Storage.Crawl.Order.{least_where-IsLeast}

-- No row of the tag may be claimed at the time.
abbrev pub Leased : Text → ℕ → List Target → Type 0
Leased tag at = All (λ x. has_tag tag x ≡ true → claimable at x ≡ false)

lease-Leased :
    (tag : Text) (gen now at : ℕ) (rows : List Target)
    → at ≤ now + lease_time
    → Leased tag at (update_where (has_tag tag) (lease_row gen now) rows)
unfolding update_where claimable
lease-Leased tag gen now at [] h = tt
lease-Leased tag gen now at (x ∷ rows) h = (ground arith, lease-Leased tag gen now at rows h)

next-not-Leased :
    (locked : Text → Bool) (tag : Text) (at : ℕ) (rows : List Target) (s : Target)
    → Leased tag at rows
    → next_target locked at rows ≡ some s
    → text_eq s.player_tag tag ≡ false
unfolding next_target
next-not-Leased locked tag at rows s h q = ground (
  arith,
  least_where-All (λ x. has_tag tag x ≡ true → claimable at x ≡ false)
      (λ x. claimable at x && not (locked x.player_tag)) comes_before rows s h q,
  (least_where-IsLeast (λ x. claimable at x && not (locked x.player_tag)) rows s q).0,
)

-- For ten minutes after a claim nobody else claims the player: a claim of the row `r` reports its tag,
-- and in the database that it leaves, no claim up to the lease's end, whatever rows are locked then,
-- takes a row of that tag.
pub claim_exclusive :
    (locked locked' : Text → Bool) (now at : ℕ) (d : Db) (r s : Target)
    → next_target locked now d.targets ≡ some r
    → at ≤ now + lease_time
    → next_target locked' at (claim_statement locked now d).1.targets ≡ some s
    → ((claim_statement locked now d).0 ≡ ok (some (claim_of r)))
      × (text_eq s.player_tag r.player_tag ≡ false)
unfolding claim_statement
claim_exclusive locked locked' now at d r s found h next = (
  rw (found, claim_statement),
  next-not-Leased locked' r.player_tag at _ s
      (rw (found, claim_statement)
        (lease-Leased r.player_tag (incr32 r.crawl_generation) now at d.targets h))
      next,
)
