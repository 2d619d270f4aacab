-- ===== src/Examples/Queue.antt =====
-- The crawl queue, sampling and the ceiling at concrete inputs.
use brawl_stars_guide.Base.{
  ◌+◌, ◌≤◌, ◌≡◌, refl, ◌⊎◌, true, false, text_eq, codes, [], ◌∷◌, some, none, pos, arith, ok, All,
  count_where, update_where, least_where, keep_where, ◌<◌,
}
use brawl_stars_guide.Storage.Schema.{Target}
use brawl_stars_guide.Storage.Statement.{World, Env}
use brawl_stars_guide.Storage.Crawl.{
  claimable, comes_before, next_target, claim_of, claim_statement,
}
use brawl_stars_guide.Storage.Crawl.Order.{IsAmong, IsReady, NotAfter, next_target-IsLeast}
use brawl_stars_guide.Storage.Crawl.Claim.{claim_exclusive}
use brawl_stars_guide.Storage.Sampling.{
  sample_rows, sample, sample_full, classify, active_other, classify_and_sample_target,
}
use brawl_stars_guide.Storage.Sampling.Reservoir.{
  active_in, sample_full-bound, sample_full-overflow,
}
use brawl_stars_guide.Ingestion.Discovery.{BattleIngestor, discover_player, try_enqueue}
use brawl_stars_guide.Crawler.Worker.{check_ceiling}
use brawl_stars_guide.Crawler.Worker.Ceiling.{at_ceiling, ceiling_removes_budget}
use brawl_stars_guide.Examples.Data.{alice, bob, two_targets, calm, first_step, cfg}

next_target_test : next_target (λ tag. false) 1000 (bob ∷ alice ∷ []) ≡ some alice
unfolding next_target least_where claimable comes_before
next_target_test = refl

next_target-IsLeast_example :
    let rows = bob ∷ alice ∷ [] in
    ((next_target (λ tag. false) 1000 rows ≡ none)
      × All (λ x. ¬ IsReady (λ tag. false) 1000 x) rows)
    ⊎ ((r : Target) × (next_target (λ tag. false) 1000 rows ≡ some r)
        × IsAmong r rows
        × IsReady (λ tag. false) 1000 r
        × All (λ x. IsReady (λ tag. false) 1000 x → NotAfter r x) rows)
next_target-IsLeast_example = next_target-IsLeast (λ tag. false) 1000 (bob ∷ alice ∷ [])

claim_exclusive_example :
    ((claim_statement (λ tag. false) 1000 two_targets).0 ≡ ok (some (claim_of alice)))
    × (text_eq (codes "BOB") (codes "ALICE") ≡ false)
unfolding next_target least_where claimable comes_before claim_statement update_where text_eq
claim_exclusive_example =
    claim_exclusive (λ tag. false) (λ tag. false) 1000 2000 two_targets alice bob refl (omega arith)
      refl

-- A bucket of one other player.
abbrev carol : Target
carol = record alice { player_tag = codes "CAROL"; player_trophy_bucket = some 2 }

sample_full-bound_example :
    ((sample_full (λ c s. true) 0 2 (codes "CAROL") 1 2 1000 (carol ∷ bob ∷ [])).0 ≡ false)
    × (count_where
            (active_other 2 (codes "CAROL"))
            (sample_full (λ c s. true) 0 2 (codes "CAROL") 1 2 1000 (carol ∷ bob ∷ [])).1
          + 1
        ≤ 1)
unfolding count_where keep_where text_eq
sample_full-bound_example =
    sample_full-bound (λ c s. true) 0 2 (codes "CAROL") 1 2 1000 (carol ∷ bob ∷ []) refl
      (omega arith) (omega arith)

abbrev leased_bob : Target
leased_bob = record bob { leased_until = some 5000 }

sample_full-overflow_example :
    ((sample_full (λ c s. true) 0 2 (codes "CAROL") 1 2 1000 (carol ∷ leased_bob ∷ [])).0 ≡ false)
    × (1
        < count_where
            (active_in 2)
            (sample_full (λ c s. true) 0 2 (codes "CAROL") 1 2 1000 (carol ∷ leased_bob ∷ [])).1)
unfolding count_where text_eq
sample_full-overflow_example =
    sample_full-overflow (λ c s. true) 0 2 (codes "CAROL") 1 2 1000 (carol ∷ leased_bob ∷ []) refl
      (omega arith) (λ own. absurd (cc), (λ other. (_, refl, omega arith), tt)) (omega arith)

-- The commit is lost and the draw rejects.
abbrev unlucky : Env
unlucky = record calm { commit_fails = λ t. true; below = λ t c s. false }

-- The rejection is reported although it is lost.
lost_rejection_test :
    (classify_and_sample_target unlucky (codes "ALICE") 2 3 (pos 700) (pos 1) first_step).0
    ≡ ok (record { out = true; failed = true })
unfolding classify_and_sample_target sample_rows sample sample_full classify update_where
    count_where text_eq
lost_rejection_test = refl

abbrev alice_ingestor : BattleIngestor
alice_ingestor = record { discoverer_tag = codes "ALICE"; cfg = at_ceiling }

-- Long after the configured budget of 50.
abbrev many_found : World
many_found = record first_step { discoveries = 51 }

ceiling_removes_budget_example :
    ((check_ceiling calm cfg first_step).0 ≡ ok at_ceiling)
    × (discover_player calm alice_ingestor (codes "CAROL") "Carol" [] many_found
        ≡ try_enqueue calm alice_ingestor (codes "CAROL") "Carol" [] many_found)
unfolding count_where text_eq
ceiling_removes_budget_example =
    ceiling_removes_budget calm cfg first_step many_found (codes "ALICE") (codes "CAROL") "Carol" []
      (omega arith) refl (omega arith) refl
