-- ===== src/Crawler/Worker/Settled/Rows.antt =====
-- storage/queries/sampling.go: the retry state of a player over the updates of a classification.
use brawl_stars_guide.Base.{
  ℕ, Bool, true, false, ◌≡◌, refl, Text, text_eq, text_eq_sound, text_eq_refl, List, Option, none,
  some, ℤ, arith, sym, ◌∙◌, ap, pos_part, count_where, find_where, view_of, find-update,
  keep_where-get,
}
use brawl_stars_guide.Storage.Schema.{Db, Target}
use brawl_stars_guide.Storage.Crawl.{has_tag}
use brawl_stars_guide.Storage.Sampling.{
  classify, sample, sample_full, sample_rows, evict, evict_victim, victim, evictable, in_bucket,
}

-- What decides when and whether a player is crawled again, and who holds the lease.
pub record RetryState : Type 0 where
  pub consecutive_failures : ℕ
  pub next_crawl_at : ℕ
  pub crawl_count : ℕ
  pub is_active : Bool
  pub leased_until : Option ℕ
  pub crawl_generation : ℕ

abbrev pub retry_view : Target → RetryState
retry_view r = record {
  consecutive_failures = r.consecutive_failures;
  next_crawl_at = r.next_crawl_at;
  crawl_count = r.crawl_count;
  is_active = r.is_active;
  leased_until = r.leased_until;
  crawl_generation = r.crawl_generation;
}

abbrev pub retry_state : Text → Db → Option RetryState
retry_state tag d = view_of retry_view (find_where (has_tag tag) d.targets)

abbrev pub rows_state : Text → List Target → Option RetryState
rows_state tag rows = view_of retry_view (find_where (has_tag tag) rows)

pub classify-state :
    (tag by : Text) (bucket priority : ℕ) (trophies : ℤ) (now : ℕ) (rows : List Target)
    → rows_state tag (classify by bucket priority trophies now rows) ≡ rows_state tag rows
unfolding classify
classify-state tag by bucket priority trophies now rows =
    find-update _ _ _ retry_view rows (λ r. refl) (λ r h g. refl)

evictable-other :
    (bucket now : ℕ) (tag : Text) (v : Target)
    → evictable bucket tag now v ≡ true
    → text_eq v.player_tag tag ≡ false
evictable-other bucket now tag v h = ground arith

-- The victim's row is not the player's own.
evict-other :
    (bucket now : ℕ) (tag : Text) (v r : Target)
    → evictable bucket tag now v ≡ true
    → has_tag tag r ≡ true
    → has_tag v.player_tag r ≡ true
    → ⊥
evict-other bucket now tag v r good mine its =
    let own : v.player_tag ≡ tag = sym (text_eq_sound _ _ its) ∙ text_eq_sound _ _ mine in
    cc (evictable-other bucket now tag v good, ap (λ t. text_eq t tag) own, text_eq_refl tag)

evict-state :
    (tag : Text) (pick bucket now : ℕ) (rows : List Target)
    → rows_state tag (evict pick bucket tag now rows) ≡ rows_state tag rows
unfolding evict victim
evict-state tag pick bucket now rows = go (victim pick bucket tag now rows) refl
  where
    go :
        (o : Option Target)
        → victim pick bucket tag now rows ≡ o
        → rows_state tag (evict_victim now rows o) ≡ rows_state tag rows
    go none e = refl
    go (some v) e =
        find-update _ _ _ retry_view rows (λ r. refl)
          λ r mine its. absurd (
            evict-other bucket now tag v r (keep_where-get (evictable bucket tag now) rows _ v e)
              mine its)

sample_full-state :
    (below : ℕ → ℕ → Bool) (pick bucket : ℕ) (tag : Text) (cap seen now : ℕ) (rows : List Target)
    → rows_state tag (sample_full below pick bucket tag cap seen now rows).1 ≡ rows_state tag rows
unfolding sample_full
sample_full-state below pick bucket tag cap seen now rows =
    ground (arith, evict-state tag pick bucket now rows)

sample-state :
    (below : ℕ → ℕ → Bool) (pick bucket : ℕ) (tag : Text) (cap : ℤ) (now : ℕ) (rows : List Target)
    → rows_state tag (sample below pick bucket tag cap now rows).1 ≡ rows_state tag rows
unfolding sample
sample-state below pick bucket tag cap now rows = ground (
  arith,
  sample_full-state below pick bucket tag (pos_part cap) (count_where (in_bucket bucket) rows) now
      rows,
)

pub sample_rows-state :
    (below : ℕ → ℕ → Bool) (pick : ℕ) (tag : Text) (bucket priority : ℕ) (trophies cap : ℤ)
    (now : ℕ) (rows : List Target)
    → rows_state tag (sample_rows below pick tag bucket priority trophies cap now rows).1
      ≡ rows_state tag rows
unfolding sample_rows
sample_rows-state below pick tag bucket priority trophies cap now rows =
    sample-state below pick bucket tag cap now _
    ∙ classify-state tag tag bucket priority trophies now rows
