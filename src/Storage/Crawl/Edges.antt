-- ===== src/Storage/Crawl/Edges.antt =====
-- storage/queries: claims, evictions and enqueues as edges of the abstract life of a player.
use brawl_stars_guide.Base.{
  ℕ, ◌+◌, ◌≤◌, ◌≡◌, refl, Bool, true, false, ◌&&◌, not, Bool-cases, inl, inr, Text, String, Option,
  none, some, List, [], ◌∷◌, ◌++◌, ℤ, sym, subst, find_where, update_where, incr32, least_where-All,
  keep_where-All, keep_where-get, get-All,
}
use brawl_stars_guide.Storage.Schema.{Db, Target}
use brawl_stars_guide.Storage.Crawl.{
  has_tag, claimable, comes_before, lease_time, lease_row, next_target,
}
use brawl_stars_guide.Storage.Players.{enqueue_statement, new_target}
use brawl_stars_guide.Storage.Sampling.{
  sample_rows, sample, evict, evict_victim, victim, classify, evictable, evict_row,
}
use brawl_stars_guide.Storage.Crawl.Counts.{count-update}
use brawl_stars_guide.Storage.Crawl.Order.{least_where-IsLeast}
use brawl_stars_guide.Storage.Crawl.Stages.{
  absent, queued, stage_of, Action, claims_at, samples_at, enqueues_at, Edge, enters, claimed,
  evicted, stays,
}
use brawl_stars_guide.Storage.Crawl.Rows.{
  rows_stage, HasOneRow, updated, Steps, found-only, update-Steps, same_stage,
}
use brawl_stars_guide.Storage.Crawl.Picks.{
  picked, claimable-parts, evictable-parts, sample_cases, enqueue_cases, found_or, find-snoc,
}

module _ (tag : Text) (rows : List Target) (one : HasOneRow tag rows) where
  pub claim-Steps :
      (locked : Text → Bool) (now : ℕ) (r : Target)
      → next_target locked now rows ≡ some r
      → Steps
          (claims_at now)
          tag
          rows
          (update_where (has_tag r.player_tag) (lease_row (incr32 r.crawl_generation) now) rows)
  unfolding next_target claimable
  claim-Steps locked now r next = update-Steps (claims_at now) tag _ _ rows (λ x. refl) edge
    where
      own :
          Edge
            (claims_at now)
            (stage_of (some r))
            (stage_of (some (lease_row (incr32 r.crawl_generation) now r)))
      own =
          let (active, due, over) =
            claimable-parts now (not (locked r.player_tag)) r
              (least_where-IsLeast (λ x. claimable now x && not (locked x.player_tag)) rows r
                next).0 in
          subst
            (λ a.
              Edge (claims_at now) (queued a r.next_crawl_at r.leased_until r.crawl_generation)
                (queued a r.next_crawl_at (some (now + lease_time)) (incr32 r.crawl_generation)))
            (sym active) (claimed now r.next_crawl_at r.crawl_generation r.leased_until due over)

      edge :
          (o : Option Target)
          → find_where (has_tag tag) rows ≡ o
          → Edge (claims_at now) (stage_of o) (
              stage_of
                (updated (has_tag r.player_tag) (lease_row (incr32 r.crawl_generation) now) o))
      edge none e = stays _ absent
      edge (some x) e = elim (Bool-cases (has_tag r.player_tag x)) [
        | inl hit ↦
            let same =
              picked tag rows x r one e
                (least_where-All (λ y. has_tag tag y ≡ true → y ≡ x) _ comes_before rows r
                  (found-only tag rows x one e) next)
                hit in
            rw hit (
              subst
                (λ z.
                  Edge (claims_at now) (stage_of (some z))
                    (stage_of (some (lease_row (incr32 r.crawl_generation) now z))))
                same own)
        | inr miss ↦ rw miss (stays _ _)
      ]

  evict-Steps :
      (pick bucket : ℕ) (by : Text) (now : ℕ) (v : Target)
      → victim pick bucket by now rows ≡ some v
      → Steps (samples_at now) tag rows (update_where (has_tag v.player_tag) (evict_row now) rows)
  unfolding victim
  evict-Steps pick bucket by now v taken =
      update-Steps (samples_at now) tag _ _ rows (λ x. refl) edge
    where
      own : Edge (samples_at now) (stage_of (some v)) (stage_of (some (evict_row now v)))
      own =
          let (active, over) =
            evictable-parts bucket now by v
              (keep_where-get (evictable bucket by now) rows _ v taken) in
          subst
            (λ a.
              Edge (samples_at now) (queued a v.next_crawl_at v.leased_until v.crawl_generation)
                (queued false v.next_crawl_at v.leased_until v.crawl_generation))
            (sym active) (evicted now v.next_crawl_at v.crawl_generation v.leased_until over)

      edge :
          (o : Option Target)
          → find_where (has_tag tag) rows ≡ o
          → Edge
              (samples_at now)
              (stage_of o)
              (stage_of (updated (has_tag v.player_tag) (evict_row now) o))
      edge none e = stays _ absent
      edge (some x) e = elim (Bool-cases (has_tag v.player_tag x)) [
        | inl hit ↦
            let same =
              picked tag rows x v one e
                (get-All (λ y. has_tag tag y ≡ true → y ≡ x) _ _ v
                  (keep_where-All _ (evictable bucket by now) rows (found-only tag rows x one e))
                  taken)
                hit in
            rw hit (
              subst
                (λ z. Edge (samples_at now) (stage_of (some z)) (stage_of (some (evict_row now z))))
                same own)
        | inr miss ↦ rw miss (stays _ _)
      ]

  pub stays-Steps : (a : Action) (rows' : List Target) → rows' ≡ rows → Steps a tag rows rows'
  stays-Steps a rows' same = subst (Steps a tag rows) (sym same) (stays _ _)

  sample-Steps :
      (below : ℕ → ℕ → Bool) (pick bucket : ℕ) (by : Text) (cap : ℤ) (now : ℕ)
      → Steps (samples_at now) tag rows (sample below pick bucket by cap now rows).1
  unfolding evict
  sample-Steps below pick bucket by cap now =
      elim (sample_cases below pick bucket by cap now rows) [
        | inl same ↦ stays-Steps _ _ same
        | inr evicts ↦
            subst (Steps (samples_at now) tag rows) (sym evicts)
              (go (victim pick bucket by now rows) refl)
      ]
    where
      go :
          (o : Option Target)
          → victim pick bucket by now rows ≡ o
          → Steps (samples_at now) tag rows (evict_victim now rows o)
      go none e = stays _ _
      go (some v) e = evict-Steps pick bucket by now v e

  insert-Steps :
      (new : Text) (source : String) (via : Text) (now : ℕ)
      → Steps (enqueues_at now) tag rows (rows ++ new_target new source via now ∷ [])
  insert-Steps new source via now =
      subst (λ o. Edge (enqueues_at now) (rows_stage tag rows) (stage_of o))
        (sym (find-snoc tag (new_target new source via now) rows))
        (go (find_where (has_tag tag) rows))
    where
      go :
          (o : Option Target)
          → Edge
              (enqueues_at now)
              (stage_of o)
              (stage_of (found_or (has_tag tag) (new_target new source via now) o))
      go (some x) = stays _ _
      go none = elim (Bool-cases (has_tag tag (new_target new source via now))) [
        | inl own ↦ rw own (enters now)
        | inr other ↦ rw other (stays _ absent)
      ]

pub enqueue-Steps :
    (tag : Text) (new : Text) (source : String) (via : Text) (now : ℕ) (d : Db)
    → HasOneRow tag d.targets
    → Steps (enqueues_at now) tag d.targets (enqueue_statement new source via now d).1.targets
enqueue-Steps tag new source via now d one = elim (enqueue_cases new source via now d) [
  | inl same ↦ stays-Steps tag d.targets one _ _ same
  | inr inserts ↦
      subst (Steps (enqueues_at now) tag d.targets) (sym inserts)
        (insert-Steps tag d.targets one new source via now)
]

pub sample_rows-Steps :
    (tag : Text) (below : ℕ → ℕ → Bool) (pick : ℕ) (by : Text) (bucket priority : ℕ)
    (trophies cap : ℤ) (now : ℕ) (rows : List Target)
    → HasOneRow tag rows
    → Steps
        (samples_at now)
        tag
        rows
        (sample_rows below pick by bucket priority trophies cap now rows).1
unfolding sample_rows classify
sample_rows-Steps tag below pick by bucket priority trophies cap now rows one =
    subst
      (λ s.
        Edge (samples_at now) s
          (rows_stage tag (sample_rows below pick by bucket priority trophies cap now rows).1))
      (same_stage tag _ _ rows (λ r. (refl, refl)))
      (sample-Steps tag (classify by bucket priority trophies now rows)
        (subst (λ n. n ≤ 1) (sym (count-update tag 0 _ _ rows (λ r. refl))) one) below pick bucket
        by cap now)
