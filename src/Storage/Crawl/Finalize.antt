-- ===== src/Storage/Crawl/Finalize.antt =====
-- storage/queries/crawl.go: the compare-and-update of FinalizeCrawl against the generations of claims.
use brawl_stars_guide.Base.{
  ℕ, ◌<◌, ◌≡◌, ◌≢◌, refl, Bool, true, false, Text, some, List, [], ◌∷◌, arith, All, count_where,
  update_where, incr32, word32, ok, sym, subst,
}
use brawl_stars_guide.Storage.Schema.{Db, Target}
use brawl_stars_guide.Storage.Crawl.{
  FinalizeParams, has_tag, owns, finalize_row, finalize_statement, lease_row, claim_statement,
  next_target,
}

-- No row has the tag and the generation.
abbrev pub NotOwned : Text → ℕ → List Target → Type 0
NotOwned tag gen = All (λ r. owns tag gen r ≡ false)

update_none :
    (p : Target → Bool) (f : Target → Target) (rows : List Target)
    → All (λ r. p r ≡ false) rows
    → update_where p f rows ≡ rows
unfolding update_where
update_none p f [] h = refl
update_none p f (r ∷ rows) h = ground (arith, update_none p f rows h.1)

count_none :
    (p : Target → Bool) (rows : List Target) → All (λ r. p r ≡ false) rows → count_where p rows ≡ 0
unfolding count_where
count_none p [] h = refl
count_none p (r ∷ rows) h = ground (arith, count_none p rows h.1)

-- A worker whose claim was overtaken changes nothing: if no row has both the tag and the generation
-- of the parameters, the statement of FinalizeCrawl returns false and leaves the database as it is.
pub finalize_stale :
    (p : FinalizeParams) (now : ℕ) (d : Db)
    → NotOwned p.player_tag p.generation d.targets
    → finalize_statement p now d ≡ (ok false, d)
unfolding finalize_statement
finalize_stale p now d h = ground (
  arith,
  update_none (owns p.player_tag p.generation) (finalize_row p now) d.targets h,
  count_none (owns p.player_tag p.generation) d.targets h,
)

incr32-ne : (n : ℕ) → n < word32 → incr32 n ≢ n
incr32-ne n h = ground arith

-- Rows of one tag: what a table with the primary key player_tag has besides the row.
abbrev pub OnlyRow : Text → ℕ → List Target → Type 0
OnlyRow tag gen = All (λ r. has_tag tag r ≡ true → r.crawl_generation ≡ gen)

claim-NotOwned :
    (tag : Text) (gen now : ℕ) (rows : List Target)
    → gen < word32
    → OnlyRow tag gen rows
    → NotOwned tag gen (update_where (has_tag tag) (lease_row (incr32 gen) now) rows)
unfolding update_where
claim-NotOwned tag gen now [] b h = tt
claim-NotOwned tag gen now (r ∷ rows) b h =
    (ground (arith, h.0, incr32-ne gen b), claim-NotOwned tag gen now rows b h.1)

-- The rows after the claim of `r`.
abbrev leased_rows : Target → ℕ → Db → List Target
leased_rows r now d =
    update_where (has_tag r.player_tag) (lease_row (incr32 r.crawl_generation) now) d.targets

-- A claim takes the row from whoever claimed it before: after a claim of the row `r` (its tag being
-- unique), FinalizeCrawl with the generation that the row had before returns false and changes nothing.
pub claim_overtakes :
    (locked : Text → Bool) (now later : ℕ) (d : Db) (r : Target) (p : FinalizeParams)
    → next_target locked now d.targets ≡ some r
    → r.crawl_generation < word32
    → OnlyRow r.player_tag r.crawl_generation d.targets
    → p.player_tag ≡ r.player_tag
    → p.generation ≡ r.crawl_generation
    → let e = (claim_statement locked now d).1 in finalize_statement p later e ≡ (ok false, e)
unfolding claim_statement
claim_overtakes locked now later d r p found b only tag gen = finalize_stale p later _ (
    rw (found, claim_statement)
      (subst (λ t. NotOwned t p.generation (leased_rows r now d)) (sym tag)
        (subst (λ g. NotOwned r.player_tag g (leased_rows r now d)) (sym gen)
          (claim-NotOwned r.player_tag r.crawl_generation now d.targets b only))))
