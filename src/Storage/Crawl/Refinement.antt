-- ===== src/Storage/Crawl/Refinement.antt =====
-- storage/queries: the statements on the queue refine the abstract life of a player.
use brawl_stars_guide.Base.{
  ℕ, ◌+◌, ◌≤◌, ◌≡◌, refl, Bool, false, Bool-cases, inl, inr, Text, text_eq, text_eq_sound, String,
  Option, none, some, List, [], ◌∷◌, ◌++◌, ℤ, arith, ap, sym, subst, any_where, count_where,
  update_where, if◌then◌else◌,
}
use brawl_stars_guide.Storage.Schema.{Db, Target}
use brawl_stars_guide.Storage.Crawl.{
  has_tag, finalize_statement, claim_statement, claim_found, next_target,
}
use brawl_stars_guide.Storage.Players.{enqueue_statement, new_target}
use brawl_stars_guide.Storage.Sampling.{
  sample_rows, evict, evict_victim, victim, classify, profile_row,
}
use brawl_stars_guide.Storage.Crawl.History.{
  QueueStep, claims, finalizes, samples, profiles, enqueues, elsewhere, QueueHistory, begins, more,
}
use brawl_stars_guide.Storage.Crawl.Counts.{count-update}
use brawl_stars_guide.Storage.Crawl.Stages.{
  stage, Action, claims_at, finalizes_gen, samples_at, enqueues_at, leaves, Edge, stays,
}
use brawl_stars_guide.Storage.Crawl.Rows.{rows_stage, HasOneRow, Steps, same_stage, finalize-Steps}
use brawl_stars_guide.Storage.Crawl.Picks.{sample_cases}
use brawl_stars_guide.Storage.Crawl.Edges.{
  claim-Steps, stays-Steps, enqueue-Steps, sample_rows-Steps,
}

-- What a statement is to the life of a player.
abbrev pub action : {d e : Db} → QueueStep d e → Action
action (claims locked now eq) = claims_at now
action (finalizes p now eq) = finalizes_gen p.generation
action (samples below pick by bucket priority trophies cap now eq) = samples_at now
action (profiles by priority trophies now eq) = leaves
action (enqueues new source via now eq) = enqueues_at now
action (elsewhere eq) = leaves

-- Each statement of a history takes the player along an edge of its own kind.
abbrev pub Follows : Text → {d e : Db} → QueueHistory d e → Type 0
Follows tag begins = Unit
Follows tag {e = f} (more {e = m} h s) = Follows tag h × Edge (action s) (stage tag m) (stage tag f)

-- Every committed statement takes each player along an edge.
step-Edge :
    (tag : Text) {d e : Db} (s : QueueStep d e)
    → HasOneRow tag d.targets
    → Edge (action s) (stage tag d) (stage tag e)
unfolding claim_statement finalize_statement
step-Edge tag {d} (claims locked now eq) one =
    subst (λ z. Edge (claims_at now) (stage tag d) (stage tag z)) (sym eq)
      (go (next_target locked now d.targets) refl)
  where
    go :
        (o : Option Target)
        → next_target locked now d.targets ≡ o
        → Edge (claims_at now) (stage tag d) (stage tag (claim_found now d o).1)
    go none q = stays _ _
    go (some r) q = claim-Steps tag d.targets one locked now r q
step-Edge tag {d} (finalizes p now eq) one =
    subst (λ z. Edge (finalizes_gen p.generation) (stage tag d) (stage tag z)) (sym eq)
      (finalize-Steps tag p now d.targets)
step-Edge tag {d} (samples below pick by bucket priority trophies cap now eq) one =
    subst (Steps (samples_at now) tag d.targets) (sym eq)
      (sample_rows-Steps tag below pick by bucket priority trophies cap now d.targets one)
step-Edge tag {d} (profiles by priority trophies now eq) one =
    subst (Steps leaves tag d.targets) (sym eq) (
      subst
        (λ s. Edge leaves s (
          rows_stage tag (update_where (has_tag by) (profile_row priority trophies now) d.targets)))
        (same_stage tag _ _ d.targets (λ r. (refl, refl))) (stays _ _))
step-Edge tag {d} (enqueues new source via now eq) one =
    subst (λ z. Edge (enqueues_at now) (stage tag d) (stage tag z)) (sym eq)
      (enqueue-Steps tag new source via now d one)
step-Edge tag {d} (elsewhere eq) one = stays-Steps tag d.targets one leaves _ eq

count-snoc :
    (tag : Text) (y : Target) (rows : List Target)
    → count_where (has_tag tag) (rows ++ y ∷ [])
      ≡ count_where (has_tag tag) rows + (if has_tag tag y then 1 else 0)
unfolding count_where
count-snoc tag y [] = ground arith
count-snoc tag y (r ∷ rows) = ground (arith, count-snoc tag y rows)

count-none :
    (p : Target → Bool) (rows : List Target) → any_where p rows ≡ false → count_where p rows ≡ 0
unfolding any_where count_where
count-none p [] h = refl
count-none p (r ∷ rows) h = ground (arith, count-none p rows)

enqueue-HasOneRow :
    (tag new : Text) (source : String) (via : Text) (now : ℕ) (d : Db)
    → HasOneRow tag d.targets
    → HasOneRow tag (enqueue_statement new source via now d).1.targets
unfolding enqueue_statement
enqueue-HasOneRow tag new source via now d one = elim (Bool-cases (text_eq new tag)) [
  | inl own ↦
      let mine : any_where (has_tag new) d.targets ≡ any_where (has_tag tag) d.targets =
        ap (λ t. any_where (has_tag t) d.targets) (text_eq_sound _ _ own) in
      ground (
        arith,
        mine,
        count-none (has_tag tag) d.targets,
        count-snoc tag (new_target new source via now) d.targets,
      )
  | inr other ↦ ground (arith, count-snoc tag (new_target new source via now) d.targets)
]

update-HasOneRow :
    (tag : Text) (q : Target → Bool) (f : Target → Target) (rows : List Target)
    → ((r : Target) → has_tag tag (f r) ≡ has_tag tag r)
    → HasOneRow tag rows
    → HasOneRow tag (update_where q f rows)
update-HasOneRow tag q f rows same one =
    subst (λ n. n ≤ 1) (sym (count-update tag 0 q f rows same)) one

claim-HasOneRow :
    (tag : Text) (now : ℕ) (d : Db) (o : Option Target)
    → HasOneRow tag d.targets
    → HasOneRow tag (claim_found now d o).1.targets
claim-HasOneRow tag now d none one = one
claim-HasOneRow tag now d (some r) one = update-HasOneRow tag _ _ d.targets (λ x. refl) one

evict-HasOneRow :
    (tag : Text) (now : ℕ) (rows : List Target) (o : Option Target)
    → HasOneRow tag rows
    → HasOneRow tag (evict_victim now rows o)
evict-HasOneRow tag now rows none one = one
evict-HasOneRow tag now rows (some v) one = update-HasOneRow tag _ _ rows (λ x. refl) one

sample-HasOneRow :
    (tag : Text) (below : ℕ → ℕ → Bool) (pick : ℕ) (by : Text) (bucket priority : ℕ)
    (trophies cap : ℤ) (now : ℕ) (rows : List Target)
    → HasOneRow tag rows
    → HasOneRow tag (sample_rows below pick by bucket priority trophies cap now rows).1
unfolding sample_rows classify evict
sample-HasOneRow tag below pick by bucket priority trophies cap now rows one =
    let classified = classify by bucket priority trophies now rows in
    let before : HasOneRow tag classified = update-HasOneRow tag _ _ rows (λ x. refl) one in
    elim (sample_cases below pick bucket by cap now classified) [
      | inl same ↦ subst (HasOneRow tag) (sym same) before
      | inr evicts ↦
          subst (HasOneRow tag) (sym evicts)
            (evict-HasOneRow tag now classified (victim pick bucket by now classified) before)
    ]

step-HasOneRow :
    (tag : Text) {d e : Db} → QueueStep d e → HasOneRow tag d.targets → HasOneRow tag e.targets
unfolding claim_statement finalize_statement
step-HasOneRow tag {d} (claims locked now eq) one =
    subst (λ z. HasOneRow tag z.targets) (sym eq)
      (claim-HasOneRow tag now d (next_target locked now d.targets) one)
step-HasOneRow tag {d} (finalizes p now eq) one =
    subst (λ z. HasOneRow tag z.targets) (sym eq)
      (update-HasOneRow tag _ _ d.targets (λ x. refl) one)
step-HasOneRow tag {d} (samples below pick by bucket priority trophies cap now eq) one =
    subst (HasOneRow tag) (sym eq)
      (sample-HasOneRow tag below pick by bucket priority trophies cap now d.targets one)
step-HasOneRow tag {d} (profiles by priority trophies now eq) one =
    subst (HasOneRow tag) (sym eq) (update-HasOneRow tag _ _ d.targets (λ x. refl) one)
step-HasOneRow tag {d} (enqueues new source via now eq) one =
    subst (λ z. HasOneRow tag z.targets) (sym eq) (enqueue-HasOneRow tag new source via now d one)
step-HasOneRow tag (elsewhere eq) one = subst (HasOneRow tag) (sym eq) one

-- The queue keeps its promise to each player: over any sequence of claims, finalizations,
-- classifications with their evictions, profile updates and enqueues of any players by any processes,
-- each statement takes the player's row along an edge of the abstract life for its kind, and the table
-- keeps one row for the player at most. So a claim takes the player only when it is active, due and not
-- leased, the generation changes with claims only, and a finalization needs the current generation.
pub queue_history-Follows :
    (tag : Text) {d e : Db} (h : QueueHistory d e)
    → HasOneRow tag d.targets
    → Follows tag h × HasOneRow tag e.targets
queue_history-Follows tag begins one = (tt, one)
queue_history-Follows tag (more h s) one =
    let (edges, still) = queue_history-Follows tag h one in
    ((edges, step-Edge tag s still), step-HasOneRow tag s still)
