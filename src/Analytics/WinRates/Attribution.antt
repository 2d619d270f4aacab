-- ===== src/Analytics/WinRates/Attribution.antt =====
-- analytics/winrate.go: the join of the eligible rows with the reference table of brawlers.
use brawl_stars_guide.Base.{
  ℕ, ◌≡◌, ◌∙◌, refl, true, false, Option, none, some, List, [], ◌∷◌, ◌==◌, arith, All, All-unit,
  All-weaken_rows, All-both, any_where, keep_where, keep_where-All, keep_where-All_kept,
  flat_map-All, map-All, length, length-map, Distinct, Bool-cases, inl, inr,
}
use brawl_stars_guide.Storage.Schema.{Db, Brawler, Participant}
use brawl_stars_guide.Storage.Battles.{brawler_known}
use brawl_stars_guide.Storage.Brawlers.{brawler_is}
use brawl_stars_guide.Analytics.Filters.{Slot, base_joins, has_brawler, has_result}
use brawl_stars_guide.Analytics.WinRates.{
  WinRateParams, base_where, eligible, brawler_of, picks_of, Pick,
}

-- The primary key of brawlers and the foreign key of battle_participants.
pub record Attributed (d : Db) : Type 0 where
  pub ids : Distinct (λ x. brawler_is x.id) d.brawlers
  pub known : All (λ p. brawler_known d p.brawler_id ≡ true) d.participants

none_kept :
    (n : ℕ) (bs : List Brawler)
    → any_where (λ b. b.id == n) bs ≡ false
    → length (keep_where (λ b. b.id == n) bs) ≡ 0
unfolding any_where keep_where
none_kept n [] h = refl
none_kept n (b ∷ bs) h = ground (arith, none_kept n bs)

same_number :
    (m n : ℕ) (bs : List Brawler)
    → (m == n) ≡ true
    → any_where (λ b. b.id == m) bs ≡ any_where (λ b. b.id == n) bs
unfolding any_where
same_number m n [] h = refl
same_number m n (b ∷ bs) h = ground (arith, same_number m n bs h)

one_kept :
    (n : ℕ) (bs : List Brawler)
    → Distinct (λ x. brawler_is x.id) bs
    → any_where (λ b. b.id == n) bs ≡ true
    → length (keep_where (λ b. b.id == n) bs) ≡ 1
unfolding any_where keep_where Distinct
one_kept n [] d h = cc
one_kept n (b ∷ bs) d h = elim (Bool-cases (b.id == n)) [
  | inl hit ↦ ground (arith, none_kept n bs, same_number b.id n bs hit)
  | inr miss ↦ ground (arith, one_kept n bs d.1)
]

one_brawler :
    (d : Db) (p : Participant)
    → Attributed d
    → brawler_known d p.brawler_id ≡ true
    → has_brawler p ≡ true
    → length (keep_where (brawler_of p) d.brawlers) ≡ 1
one_brawler d p a known some_id = go p.brawler_id known some_id
  where
    go :
        (o : Option ℕ)
        → brawler_known d o ≡ true
        → elim o [ none ↦ false | some id ↦ true ] ≡ true
        → length (
            keep_where (λ (b : Brawler). elim o [ none ↦ false | some id ↦ b.id == id ]) d.brawlers)
          ≡ 1
    go none k s = cc
    go (some n) k s = one_kept n d.brawlers a.ids k

joins-known :
    (d : Db)
    → Attributed d
    → All (λ s. brawler_known d s.participant.brawler_id ≡ true) (base_joins d)
unfolding base_joins
joins-known d a =
    flat_map-All (λ p. brawler_known d p.brawler_id ≡ true) _ _ d.participants
      (λ p h.
        flat_map-All (λ t. Unit {0}) _ _ _
          (λ t u. map-All (λ b. Unit {0}) _ _ _ (λ b v. h) (All-unit _)) (All-unit _))
      a.known

where_parts :
    (p : WinRateParams) (s : Slot)
    → base_where p s ≡ true
    → (has_brawler s.participant ≡ true) × (has_result s.team ≡ true)
unfolding base_where
where_parts p s h = ground arith

-- Every eligible row names a brawler, which one row of the reference table has.
pub eligible-known :
    (p : WinRateParams) (d : Db)
    → Attributed d
    → All
        (λ s.
          (has_brawler s.participant ≡ true)
          × (length (keep_where (brawler_of s.participant) d.brawlers) ≡ 1))
        (eligible p d)
unfolding eligible
eligible-known p d a =
    All-weaken_rows _ _ (keep_where (base_where p) (base_joins d))
      (λ s h. ((where_parts p s h.1).0, one_brawler d s.participant a h.0 (where_parts p s h.1).0))
      (All-both _ _ _ (keep_where-All _ (base_where p) _ (joins-known d a))
        (keep_where-All_kept (base_where p) (base_joins d)))

-- Every eligible row joins with one brawler.
pub eligible-one :
    (p : WinRateParams) (d : Db)
    → Attributed d
    → All (λ s. length (picks_of d s) ≡ 1) (eligible p d)
unfolding picks_of
eligible-one p d a =
    All-weaken_rows _ _ (eligible p d)
      (λ s h.
        length-map {B = Pick} (λ b. record { brawler = b; slot = s })
          (keep_where (brawler_of s.participant) d.brawlers)
        ∙ h.1)
      (eligible-known p d a)

-- Every eligible row is of a team with a result.
pub eligible-result :
    (p : WinRateParams) (d : Db) → All (λ s. has_result s.team ≡ true) (eligible p d)
unfolding eligible
eligible-result p d =
    All-weaken_rows _ _ (keep_where (base_where p) (base_joins d)) (λ s h. (where_parts p s h).1)
      (keep_where-All_kept (base_where p) (base_joins d))
