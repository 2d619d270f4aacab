-- ===== src/Storage/Crawl/Fencing.antt =====
-- storage/queries/crawl.go: the generation of a claim as a fencing token.
use brawl_stars_guide.Base.{
  ℕ, zero, suc, ◌<◌, ◌≡◌, refl, true, false, ◌⊎◌, inl, inr, Text, List, [], ◌∷◌, ok, arith, ap, sym,
  ◌∙◌, subst, count_where, word32, ◌==◌, if◌then◌else◌,
}
use brawl_stars_guide.Storage.Schema.{Db, Target}
use brawl_stars_guide.Storage.Crawl.{FinalizeParams, has_tag, owns, finalize_statement}
use brawl_stars_guide.Storage.Crawl.Finalize.{finalize_stale, NotOwned}
use brawl_stars_guide.Storage.Crawl.History.{QueueHistory, claim_count, Standing, HasGeneration}
use brawl_stars_guide.Storage.Crawl.Standing.{next_generation, history-Standing}

owns-count :
    (tag : Text) (gen now : ℕ) (rows : List Target)
    → HasGeneration tag now rows
    → count_where (owns tag gen) rows ≡ (if now == gen then count_where (has_tag tag) rows else 0)
unfolding count_where
owns-count tag gen now [] h = ground arith
owns-count tag gen now (r ∷ rows) h = ground (arith, h.0, owns-count tag gen now rows h.1)

other-NotOwned :
    (tag : Text) (gen now : ℕ) (rows : List Target)
    → HasGeneration tag now rows
    → (now == gen) ≡ false
    → NotOwned tag gen rows
other-NotOwned tag gen now [] h other = tt
other-NotOwned tag gen now (r ∷ rows) h other =
    (ground (arith, h.0), other-NotOwned tag gen now rows h.1 other)

-- The generation comes back to itself after no claims only, or after 2^32.
nothing_since :
    (gen k : ℕ)
    → gen < word32
    → k < word32
    → ((k ≡ 0) × (next_generation gen k ≡ gen))
      ⊎ (((k == 0) ≡ false) × ((next_generation gen k == gen) ≡ false))
nothing_since gen zero b few = inl (refl, omega arith)
nothing_since gen (suc k) b few = inr (ground arith, ground arith)

finalize_owned :
    (p : FinalizeParams) (now : ℕ) (d : Db)
    → Standing p.player_tag p.generation d.targets
    → (finalize_statement p now d).0 ≡ ok true
unfolding finalize_statement
finalize_owned p now d h =
    ground (arith, h.one, owns-count p.player_tag p.generation p.generation d.targets h.generation)

-- A worker that claimed the player some time ago, with nobody else's claim of the player since, or with
-- fewer than 2^32 of them: over any sequence of claims, finalizations, classifications, profile updates
-- and enqueues of any players by any processes, FinalizeCrawl with the worker's generation returns true
-- exactly if nobody claimed the player since, and otherwise changes nothing. The player has one row.
pub finalize_fenced :
    (p : FinalizeParams) (now : ℕ) {d e : Db} (h : QueueHistory d e)
    → p.generation < word32
    → Standing p.player_tag p.generation d.targets
    → claim_count p.player_tag h < word32
    → ((finalize_statement p now e).0 ≡ ok (claim_count p.player_tag h == 0))
      × ((claim_count p.player_tag h ≡ 0) ⊎ ((finalize_statement p now e).1 ≡ e))
finalize_fenced p now {d} {e} h b standing few =
    let k = claim_count p.player_tag h in
    let gen = next_generation p.generation k in
    let after = history-Standing p.player_tag p.generation h b standing in
    elim (nothing_since p.generation k b few) [
      | inl (none_since, same) ↦ (
        rw none_since
            (finalize_owned p now e (subst (λ g. Standing p.player_tag g e.targets) same after)),
        inl none_since,
      )
      | inr (some_since, other) ↦
          let stale =
            finalize_stale p now e
              (other-NotOwned p.player_tag p.generation gen e.targets after.generation other) in
          (ap (λ r. r.0) stale ∙ ap ok (sym some_since), inr (ap (λ r. r.1) stale))
    ]
