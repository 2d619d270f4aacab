-- ===== src/Storage/Crawl/Standing.antt =====
-- storage/queries: how each statement on the queue moves the generation of a player's row.
use brawl_stars_guide.Base.{
  ℕ, ◌+◌, ◌%◌, ◌<◌, ◌≡◌, refl, Bool, true, false, inl, inr, Bool-cases, Text, text_eq,
  text_eq_sound, text_eq_refl, String, Option, none, some, List, [], ◌∷◌, ◌++◌, ℤ, arith, ap, sym,
  ◌∙◌, subst, All-append, any_where, count_where, update_where, incr32, word32, if◌then◌else◌,
  least_where-All,
}
use brawl_stars_guide.Storage.Schema.{Db, Target}
use brawl_stars_guide.Storage.Crawl.{
  has_tag, comes_before, finalize_statement, lease_row, claim_statement, claim_found, next_target,
}
use brawl_stars_guide.Storage.Players.{enqueue_statement, new_target}
use brawl_stars_guide.Storage.Sampling.{
  sample_rows, sample, sample_full, evict, evict_victim, victim, classify,
}
use brawl_stars_guide.Storage.Crawl.History.{
  QueueStep, claims, finalizes, samples, profiles, enqueues, elsewhere, QueueHistory, begins, more,
  takes, step_claims, claim_count, Standing,
}
use brawl_stars_guide.Storage.Crawl.Counts.{count-update, HasGeneration-update, count-append}

-- An UPDATE that does not touch the tags and the generations.
update-Standing :
    (tag : Text) (gen : ℕ) (q : Target → Bool) (f : Target → Target) (rows : List Target)
    → ((r : Target)
        → (has_tag tag (f r) ≡ has_tag tag r) × ((f r).crawl_generation ≡ r.crawl_generation))
    → Standing tag gen rows
    → Standing tag gen (update_where q f rows)
update-Standing tag gen q f rows same h = record {
  one = count-update tag gen q f rows (λ r. (same r).0) ∙ h.one;
  generation =
      HasGeneration-update tag gen q f rows gen (λ r. (same r).0)
        (λ r own old. ground (arith, (same r).1)) h.generation;
}

module _ (tag : Text) (gen : ℕ) where
  evict-Standing :
      (now : ℕ) (rows : List Target) (o : Option Target)
      → Standing tag gen rows
      → Standing tag gen (evict_victim now rows o)
  evict-Standing now rows none h = h
  evict-Standing now rows (some v) h = update-Standing tag gen _ _ rows (λ r. (refl, refl)) h

  sample-Standing :
      (below : ℕ → ℕ → Bool) (pick bucket : ℕ) (by : Text) (cap : ℤ) (now : ℕ) (rows : List Target)
      → Standing tag gen rows
      → Standing tag gen (sample below pick bucket by cap now rows).1
  unfolding sample sample_full evict
  sample-Standing below pick bucket by cap now rows h =
      ground (arith, evict-Standing now rows (victim pick bucket by now rows) h)

  sample_rows-Standing :
      (below : ℕ → ℕ → Bool) (pick : ℕ) (by : Text) (bucket priority : ℕ) (trophies cap : ℤ)
      (now : ℕ) (rows : List Target)
      → Standing tag gen rows
      → Standing tag gen (sample_rows below pick by bucket priority trophies cap now rows).1
  unfolding sample_rows classify
  sample_rows-Standing below pick by bucket priority trophies cap now rows h =
      sample-Standing below pick bucket by cap now _
        (update-Standing tag gen _ _ rows (λ r. (refl, refl)) h)

  append-Standing :
      (rows : List Target) (x : Target)
      → has_tag tag x ≡ false
      → Standing tag gen rows
      → Standing tag gen (rows ++ x ∷ [])
  append-Standing rows x other h = record {
    one = count-append tag x other rows ∙ h.one;
    generation = All-append _ rows _ h.generation (λ own. absurd (cc), tt);
  }

  -- The SELECT of a claim finds the player's row with its generation.
  found-generation :
      (locked : Text → Bool) (now : ℕ) (rows : List Target) (r : Target)
      → Standing tag gen rows
      → next_target locked now rows ≡ some r
      → has_tag tag r ≡ true
      → r.crawl_generation ≡ gen
  unfolding next_target
  found-generation locked now rows r h found =
      least_where-All (λ x. has_tag tag x ≡ true → x.crawl_generation ≡ gen) _ comes_before rows r
        h.generation found

  -- A claim of another player.
  other-Standing :
      (now : ℕ) (rows : List Target) (r : Target)
      → text_eq r.player_tag tag ≡ false
      → Standing tag gen rows
      → Standing tag gen
          (update_where (has_tag r.player_tag) (lease_row (incr32 r.crawl_generation) now) rows)
  other-Standing now rows r other h = record {
    one = count-update tag gen _ _ rows (λ x. refl) ∙ h.one;
    generation = HasGeneration-update tag gen _ _ rows gen (λ x. refl) left h.generation;
  }
    where
      left :
          (x : Target)
          → has_tag tag x ≡ true
          → x.crawl_generation ≡ gen
          → (if has_tag r.player_tag x
              then lease_row (incr32 r.crawl_generation) now x
              else x).crawl_generation
            ≡ gen
      left x own old = elim (Bool-cases (has_tag r.player_tag x)) [
        | inl same ↦
            let own_tag : r.player_tag ≡ tag =
              sym (text_eq_sound _ _ same) ∙ text_eq_sound _ _ own in
            absurd (cc (text_eq_refl tag, ap (λ t. text_eq t tag) own_tag))
        | inr another ↦ rw another old
      ]

  -- A claim of the player.
  own-Standing :
      (now : ℕ) (rows : List Target) (r : Target)
      → text_eq r.player_tag tag ≡ true
      → r.crawl_generation ≡ gen
      → Standing tag gen rows
      → Standing tag
          (incr32 gen)
          (update_where (has_tag r.player_tag) (lease_row (incr32 r.crawl_generation) now) rows)
  own-Standing now rows r own now_gen h = record {
    one = count-update tag gen _ _ rows (λ x. refl) ∙ h.one;
    generation =
        HasGeneration-update tag (incr32 gen) _ _ rows gen (λ x. refl)
          (λ x mine old. ground (arith, text_eq_sound _ _ own)) h.generation;
  }

abbrev pub next_generation : ℕ → ℕ → ℕ
next_generation gen k = (gen + k) % 4294967296

claim-Standing :
    (tag : Text) (gen now : ℕ) (d : Db) (o : Option Target)
    → gen < word32
    → Standing tag gen d.targets
    → ((r : Target) → o ≡ some r → has_tag tag r ≡ true → r.crawl_generation ≡ gen)
    → Standing tag (next_generation gen (takes tag o)) (claim_found now d o).1.targets
claim-Standing tag gen now d none b h found = subst (λ g. Standing tag g d.targets) (omega arith) h
claim-Standing tag gen now d (some r) b h found = elim (Bool-cases (text_eq r.player_tag tag)) [
  | inl own ↦ rw own (own-Standing tag gen now d.targets r own (found r refl own) h)
  | inr other ↦ rw other (
      subst (λ g. Standing tag g (claim_found now d (some r)).1.targets) (omega arith)
        (other-Standing tag gen now d.targets r other h))
]

any-count :
    (p : Target → Bool) (rows : List Target) → count_where p rows ≡ 1 → any_where p rows ≡ true
unfolding any_where count_where
any-count p [] h = absurd (omega arith)
any-count p (r ∷ rows) h = ground (arith, any-count p rows)

enqueue-Standing :
    (tag : Text) (gen : ℕ) (new : Text) (source : String) (via : Text) (now : ℕ) (d : Db)
    → Standing tag gen d.targets
    → Standing tag gen (enqueue_statement new source via now d).1.targets
unfolding enqueue_statement
enqueue-Standing tag gen new source via now d h = elim (Bool-cases (text_eq new tag)) [
  | inl own ↦
      let known : any_where (has_tag new) d.targets ≡ true =
        subst (λ t. any_where (has_tag t) d.targets ≡ true) (sym (text_eq_sound _ _ own))
          (any-count (has_tag tag) d.targets h.one) in
      rw known h
  | inr other ↦
      ground (arith, append-Standing tag gen d.targets (new_target new source via now) other h)
]

unclaimed :
    (tag : Text) (gen : ℕ) {rows : List Target}
    → gen < word32
    → Standing tag gen rows
    → Standing tag (next_generation gen 0) rows
unclaimed tag gen {rows} b h = subst (λ g. Standing tag g rows) (omega arith) h

step-Standing :
    (tag : Text) (gen : ℕ) {d e : Db} (s : QueueStep d e)
    → gen < word32
    → Standing tag gen d.targets
    → Standing tag (next_generation gen (step_claims tag s)) e.targets
unfolding claim_statement finalize_statement
step-Standing tag gen {d} (claims locked now eq) b h =
    subst
      (λ z.
        Standing tag (next_generation gen (takes tag (next_target locked now d.targets))) z.targets)
      (sym eq)
      (claim-Standing tag gen now d (next_target locked now d.targets) b h
        (λ r found. found-generation tag gen locked now d.targets r h found))
step-Standing tag gen {d} (finalizes p now eq) b h =
    subst (λ z. Standing tag (next_generation gen 0) z.targets) (sym eq)
      (unclaimed tag gen b (update-Standing tag gen _ _ d.targets (λ r. (refl, refl)) h))
step-Standing tag gen {d} (samples below pick t bucket priority trophies cap now eq) b h =
    subst (Standing tag _) (sym eq) (
      unclaimed tag gen b
        (sample_rows-Standing tag gen below pick t bucket priority trophies cap now d.targets h))
step-Standing tag gen {d} (profiles t priority trophies now eq) b h =
    subst (Standing tag _) (sym eq)
      (unclaimed tag gen b (update-Standing tag gen _ _ d.targets (λ r. (refl, refl)) h))
step-Standing tag gen {d} (enqueues t source via now eq) b h =
    subst (λ z. Standing tag (next_generation gen 0) z.targets) (sym eq)
      (unclaimed tag gen b (enqueue-Standing tag gen t source via now d h))
step-Standing tag gen (elsewhere eq) b h = subst (Standing tag _) (sym eq) (unclaimed tag gen b h)

-- After a history, the player's row has the generation that the claims of the player lead to.
pub history-Standing :
    (tag : Text) (gen : ℕ) {d e : Db} (h : QueueHistory d e)
    → gen < word32
    → Standing tag gen d.targets
    → Standing tag (next_generation gen (claim_count tag h)) e.targets
unfolding claim_count
history-Standing tag gen {d} begins b k = unclaimed tag gen b k
history-Standing tag gen {d} {e} (more h s) b k =
    subst (λ g. Standing tag g e.targets) (omega arith)
      (step-Standing tag _ s (omega arith) (history-Standing tag gen h b k))
