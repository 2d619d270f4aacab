-- ===== src/Storage/Crawl/Order.antt =====
-- storage/queries/crawl.go: the row that a claim takes.
use brawl_stars_guide.Base.{
  ℕ, suc, get_elem?, All-weaken_rows, least_where-All, ◌≤◌, ◌<◌, ◌≡◌, refl, Bool, true, false, ◌&&◌,
  not, Text, Option, none, some, List, [], ◌∷◌, arith, All, least_where, inl, inr, Bool-cases, ◌⊎◌,
  subst,
}
use brawl_stars_guide.Storage.Schema.{Target}
use brawl_stars_guide.Storage.Crawl.{lease_over, claimable, comes_before, next_target}

-- Ordered by priority, then by the time of the next crawl.
comes_before_trans :
    (a b c : Target)
    → comes_before b a ≡ false
    → comes_before c b ≡ false
    → comes_before c a ≡ false
unfolding comes_before
comes_before_trans a b c h k = ground arith

comes_before_asym : (a b : Target) → comes_before a b ≡ true → comes_before b a ≡ false
unfolding comes_before
comes_before_asym a b h = ground arith

comes_before_irrefl : (a : Target) → comes_before a a ≡ false
unfolding comes_before
comes_before_irrefl a = ground arith

-- No row that the WHERE keeps comes before the row.
abbrev pub IsLeast : (Target → Bool) → Target → List Target → Type 0
IsLeast p r rows = All (λ x. p x ≡ true → comes_before x r ≡ false) rows

All-weaken :
    (p : Target → Bool) (r s : Target) (rows : List Target)
    → comes_before r s ≡ false
    → IsLeast p r rows
    → IsLeast p s rows
All-weaken p r s [] h a = tt
All-weaken p r s (x ∷ rows) h a =
    (λ q. comes_before_trans s r x h (a.0 q), All-weaken p r s rows h a.1)

-- Nothing is kept exactly if every row fails the WHERE.
abbrev NoneKept : (Target → Bool) → List Target → Type 0
NoneKept p = All (λ x. p x ≡ false)

none-IsLeast :
    (p : Target → Bool) (r : Target) (rows : List Target) → NoneKept p rows → IsLeast p r rows
none-IsLeast p r [] a = tt
none-IsLeast p r (x ∷ rows) a = (λ q. cc (a.0), none-IsLeast p r rows a.1)

least_where-none :
    (p : Target → Bool) (rows : List Target)
    → least_where p comes_before rows ≡ none
    → NoneKept p rows
unfolding least_where
least_where-none p [] h = tt
least_where-none p (x ∷ rows) h = ground (arith, least_where-none p rows)

-- The first row `x` taken for itself, or beside the least `y` of the others.
first-IsLeast :
    (p : Target → Bool) (x r : Target) (rows : List Target)
    → x ≡ r
    → p x ≡ true
    → IsLeast p x rows
    → (p r ≡ true) × IsLeast p r (x ∷ rows)
first-IsLeast p x r rows e h a =
    subst (λ z. (p z ≡ true) × IsLeast p z (x ∷ rows)) e (h, (λ q. comes_before_irrefl x, a))

pub least_where-IsLeast :
    (p : Target → Bool) (rows : List Target) (r : Target)
    → least_where p comes_before rows ≡ some r
    → (p r ≡ true) × IsLeast p r rows
unfolding least_where
least_where-IsLeast p [] r h = cc
least_where-IsLeast p (x ∷ rows) r h =
    go (p x) refl (least_where p comes_before rows) refl (least_where-IsLeast p rows)
  where
    go :
        (b : Bool)
        → p x ≡ b
        → (o : Option Target) → least_where p comes_before rows ≡ o
        → ((s : Target)
            → least_where p comes_before rows ≡ some s
            → (p s ≡ true) × IsLeast p s rows)
        → (p r ≡ true) × IsLeast p r (x ∷ rows)
    go true e none q ih =
        first-IsLeast p x r rows (ground arith) e
          (none-IsLeast p x rows (least_where-none p rows q))
    go true e (some y) q ih = elim (Bool-cases (comes_before y x)) [
      | inl t ↦
          let same : y ≡ r = ground arith in
          subst (λ z. (p z ≡ true) × IsLeast p z (x ∷ rows)) same
            ((ih y q).0, (λ k. comes_before_asym y x t, (ih y q).1))
      | inr f ↦ first-IsLeast p x r rows (ground arith) e (All-weaken p y x rows f (ih y q).1)
    ]
    go false e o q ih =
        let found : least_where p comes_before rows ≡ some r = ground arith in
        ((ih r found).0, (λ k. cc, (ih r found).1))

-- No lease, or one that ended before the time.
abbrev pub NotLeased : ℕ → Option ℕ → Type 0
NotLeased now none = Unit {0}
NotLeased now (some t) = t < now

-- What a claim may take: an active player who is due, not leased and not locked by another claim.
pub record IsReady (locked : Text → Bool) (now : ℕ) (r : Target) : Type 0 where
  pub is_active : r.is_active ≡ true
  pub is_due : r.next_crawl_at ≤ now
  pub not_leased : NotLeased now r.leased_until
  pub not_locked : locked r.player_tag ≡ false

-- `r` is to be taken before `x`, or as well as it: a smaller number goes first, then the earlier time.
abbrev pub NotAfter : Target → Target → Type 0
NotAfter r x =
    (r.priority < x.priority) ⊎ ((r.priority ≡ x.priority) × (r.next_crawl_at ≤ x.next_crawl_at))

module _ (locked : Text → Bool) (now : ℕ) where
  abbrev kept : Target → Bool
  kept r = claimable now r && not (locked r.player_tag)

  over-NotLeased : (t : Option ℕ) → lease_over now t ≡ true → NotLeased now t
  over-NotLeased none h = tt
  over-NotLeased (some t) h = ground arith

  NotLeased-over : (t : Option ℕ) → NotLeased now t → lease_over now t ≡ true
  NotLeased-over none h = refl
  NotLeased-over (some t) h = ground arith

  kept-IsReady : (r : Target) → kept r ≡ true → IsReady locked now r
  unfolding claimable
  kept-IsReady r h = record {
    is_active = ground arith;
    is_due = ground arith;
    not_leased = over-NotLeased r.leased_until (ground arith);
    not_locked = ground arith;
  }

  IsReady-kept : (r : Target) → IsReady locked now r → kept r ≡ true
  unfolding claimable
  IsReady-kept r h =
      ground
        (arith, h.is_active, h.is_due, NotLeased-over r.leased_until h.not_leased, h.not_locked)

  least-NotAfter :
      (r : Target) (rows : List Target)
      → IsLeast kept r rows
      → All (λ x. IsReady locked now x → NotAfter r x) rows
  unfolding comes_before
  least-NotAfter r [] h = tt
  least-NotAfter r (x ∷ rows) h = (
    λ ready. let not_before = h.0 (IsReady-kept x ready) in ground arith,
    least-NotAfter r rows h.1,
  )

  none-IsReady : (rows : List Target) → NoneKept kept rows → All (λ x. ¬ IsReady locked now x) rows
  none-IsReady [] h = tt
  none-IsReady (x ∷ rows) h = (λ ready. cc (h.0, IsReady-kept x ready), none-IsReady rows h.1)

-- The row is one of the rows.
abbrev pub IsAmong : Target → List Target → Type 0
IsAmong r rows = (i : ℕ) × (get_elem? rows i ≡ some r)

each-IsAmong : (rows : List Target) → All (λ x. IsAmong x rows) rows
each-IsAmong [] = tt
each-IsAmong (x ∷ rows) =
    ((0, refl), All-weaken_rows _ _ rows (λ y (i, found). (suc i, found)) (each-IsAmong rows))

-- The row that a claim takes is a row of the table and ready: active, due, not leased and not locked; and every ready row has
-- a greater number for its priority, or the same and no earlier time of its next crawl. There is no row
-- to take only if none is ready.
pub next_target-IsLeast :
    (locked : Text → Bool) (now : ℕ) (rows : List Target)
    → ((next_target locked now rows ≡ none) × All (λ x. ¬ IsReady locked now x) rows)
      ⊎ ((r : Target) × (next_target locked now rows ≡ some r)
          × IsAmong r rows
          × IsReady locked now r
          × All (λ x. IsReady locked now x → NotAfter r x) rows)
unfolding next_target
next_target-IsLeast locked now rows = go (next_target locked now rows) refl
  where
    go :
        (o : Option Target)
        → next_target locked now rows ≡ o
        → ((next_target locked now rows ≡ none) × All (λ x. ¬ IsReady locked now x) rows)
          ⊎ ((r : Target) × (next_target locked now rows ≡ some r)
              × IsAmong r rows
              × IsReady locked now r
              × All (λ x. IsReady locked now x → NotAfter r x) rows)
    go none q = inl (q, none-IsReady locked now rows (least_where-none (kept locked now) rows q))
    go (some r) q =
        let (chosen, least) = least_where-IsLeast (kept locked now) rows r q in
        inr (
          r,
          q,
          least_where-All (λ x. IsAmong x rows) (kept locked now) comes_before rows r
              (each-IsAmong rows) q,
          kept-IsReady locked now r chosen,
          least-NotAfter locked now r rows least,
        )
