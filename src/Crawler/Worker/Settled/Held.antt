-- ===== src/Crawler/Worker/Settled/Held.antt =====
-- crawler/worker.go: the claimed player's row over the statements of a crawl.
use brawl_stars_guide.Base.{
  ℕ, ◌≡◌, refl, Text, [], ◌∷◌, some, arith, sym, ◌∙◌, subst, find-update, find-append,
}
use brawl_stars_guide.Storage.Schema.{Db}
use brawl_stars_guide.Storage.Statement.{Env, World}
use brawl_stars_guide.Storage.Crawl.{has_tag}
use brawl_stars_guide.Storage.Players.{enqueue_statement, new_target}
use brawl_stars_guide.Crawler.Worker.Settled.Rows.{
  RetryState, retry_view, retry_state, rows_state, sample_rows-state,
}
use brawl_stars_guide.Crawler.Worker.Settled.Rules.{QueueRules}

-- The players' own rows are what the others leave alone while the lease runs.
module _ (tag : Text) (state : RetryState) where
  abbrev pub Held : World → Type 0
  Held w = retry_state tag w.db ≡ some state

  abbrev pub Left : Env → Type 0
  Left e =
      (n : ℕ) (d : Db)
      → retry_state tag d ≡ some state
      → retry_state tag (e.others n d) ≡ some state

  pub held_rules : (e : Env) → Left e → QueueRules e tag (λ d. retry_state tag d ≡ some state)
  unfolding enqueue_statement
  held_rules e left = record {
    others = left;
    elsewhere = λ d d' same h. subst (λ t. rows_state tag t ≡ some state) (sym same) h;
    enqueues = λ new source via now d h. ground (
      arith,
      find-append (has_tag tag) retry_view d.targets (new_target new source via now ∷ []) state h,
    );
    samples = λ below pick bucket priority trophies cap now d h.
        sample_rows-state below pick tag bucket priority trophies cap now d.targets ∙ h;
    profiles = λ priority trophies now d h.
        find-update _ _ _ retry_view d.targets (λ r. refl) (λ r m n. refl) ∙ h;
  }
