-- ===== src/Crawler/Worker/Settled/Leased.antt =====
-- storage/queries/crawl.go: the player's row as a claim leaves it.
use brawl_stars_guide.Base.{
  ℕ, ◌≡◌, refl, true, inl, inr, Bool-cases, Text, Option, none, some, List, [], ◌∷◌, ok, arith, ap,
  ◌∙◌, incr32, find_where, update_where, view_of,
}
use brawl_stars_guide.Storage.Schema.{Target}
use brawl_stars_guide.Storage.Statement.{Env, World, exec, settle}
use brawl_stars_guide.Storage.Crawl.{
  ClaimResult, has_tag, claim_next_target, claim_statement, claim_found, claim_of, lease_row,
  next_target,
}
use brawl_stars_guide.Crawler.Worker.Settled.Rows.{RetryState, retry_view, retry_state, rows_state}

pub view_of-some :
    (o : Option Target) (s : RetryState)
    → view_of retry_view o ≡ some s
    → (r : Target) × (o ≡ some r) × (retry_view r ≡ s)
view_of-some none s h = absurd (cc)
view_of-some (some r) s h = (r, refl, ground arith)

pub has_tag-found :
    (tag : Text) (rows : List Target) (r : Target)
    → find_where (has_tag tag) rows ≡ some r
    → has_tag tag r ≡ true
unfolding find_where
has_tag-found tag [] r h = absurd (cc)
has_tag-found tag (x ∷ rows) r h = ground (arith, has_tag-found tag rows r)

-- The row that a claim leaves has the claim's generation.
leased-generation :
    (tag : Text) (gen now : ℕ) (rows : List Target) (s : RetryState)
    → rows_state tag (update_where (has_tag tag) (lease_row gen now) rows) ≡ some s
    → s.crawl_generation ≡ gen
unfolding find_where update_where
leased-generation tag gen now [] s h = absurd (cc)
leased-generation tag gen now (r ∷ rows) s h = ground (arith, leased-generation tag gen now rows s)

pub claim-generation :
    (e : Env) (w v : World) (claim : ClaimResult) (s : RetryState)
    → claim_next_target e w ≡ (ok (some claim), v)
    → retry_state claim.player_tag v.db ≡ some s
    → s.crawl_generation ≡ claim.generation
unfolding claim_next_target exec claim_statement
claim-generation e w v claim s got held = elim (Bool-cases (e.fails w.step)) [
  | inl down ↦ absurd (cc)
  | inr up ↦
      go (next_target (e.locked w.step) (e.db_now w.step) (e.others w.step w.db).targets)
        (rw up at got)
]
  where
    go :
        (o : Option Target)
        → settle w (e.others w.step w.db) (claim_found (e.db_now w.step) (e.others w.step w.db) o)
          ≡ (ok (some claim), v)
        → s.crawl_generation ≡ claim.generation
    go none eq = absurd (cc)
    go (some r) eq =
        let claimed_as : claim_of r ≡ claim = ground arith in
        leased-generation r.player_tag (incr32 r.crawl_generation) (e.db_now w.step)
          (e.others w.step w.db).targets s
          (ap (λ x. rows_state r.player_tag x.1.db.targets) eq
            ∙ ap (λ c. rows_state c.player_tag v.db.targets) claimed_as
            ∙ held)
        ∙ ap (λ c. c.generation) claimed_as
