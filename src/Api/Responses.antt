-- ===== src/Api/Responses.antt =====
-- api/cmd/api/main.go: what a response with win rates reports.
use brawl_stars_guide.Base.{
  ℕ, ◌≤◌, ◌≡◌, refl, true, ◌||◌, String, str_eq, str_eq_iff, Option, none, some, pos, ap, sym, ◌∙◌,
  subst, arith, if◌then◌else◌, Bool-cases, inl, inr, ok, err, Result,
}
use brawl_stars_guide.Storage.Statement.{Env, World, handle, branch, return}
use brawl_stars_guide.Analytics.Filters.{valid_battle_type, default_type}
use brawl_stars_guide.Analytics.WinRates.{
  Float, WinRateParams, WinRateResult, brawler_win_rates, min_battles_of,
}
use brawl_stars_guide.Api.{Query, Numbers, Response, WinRateResponse, rates, get_param, failed}
use brawl_stars_guide.Api.Handlers.{answer_rates, rates_response, win_rates_handler}
use brawl_stars_guide.Api.Requests.{
  good_type, good_bucket, good_min, good_request, asked_type, asked_bucket, asked_min, asked,
}
use brawl_stars_guide.Api.Outcomes.{status_of, handler-good, handler-bad}

-- The parameters that a response reports.
abbrev pub reported : WinRateResponse → WinRateParams
reported r = record {
  mode = r.mode;
  map_name = r.map_name;
  battle_type = r.battle_type;
  brawler_trophy_bucket = r.brawler_trophy_bucket;
  min_battles = r.min_battles;
}

-- The data that a response carries.
abbrev pub carried : WinRateResponse → WinRateResult
carried r = record {
  sample_battles = r.sample_battles;
  total_slots = r.total_slots;
  brawlers = r.brawlers;
}

-- The body that the handler builds from a result.
abbrev sent : WinRateParams → WinRateResult → WinRateResponse
sent p t = record {
  mode = p.mode;
  map_name = p.map_name;
  battle_type = p.battle_type;
  brawler_trophy_bucket = p.brawler_trophy_bucket;
  min_battles = p.min_battles;
  data_label = "DIRECT+DERIVED";
  sample_battles = t.sample_battles;
  total_slots = t.total_slots;
  brawlers = t.brawlers;
}

answered-params :
    (f : Float) (e : Env) (p : WinRateParams) (w : World) (r : WinRateResponse)
    → (answer_rates f e p w).0 ≡ ok (record { status = 200; body = rates r })
    → (reported r ≡ p) × ((brawler_win_rates f e p w).0 ≡ ok (carried r))
unfolding answer_rates handle
answered-params f e p w r h = go (brawler_win_rates f e p w) refl h
  where
    go :
        (m : Result WinRateResult × World)
        → brawler_win_rates f e p w ≡ m
        → (branch {B = Response} (λ x. return failed) (λ t. return (rates_response p t)) m).0
          ≡ ok (record { status = 200; body = rates r })
        → (reported r ≡ p) × ((brawler_win_rates f e p w).0 ≡ ok (carried r))
    go (ok t, v) m k =
        let same : sent p t ≡ r = cc in
        (sym (ap reported same), ap (λ z. z.0) m ∙ ap (λ z. ok (carried z)) same)
    go (err x, v) m k = absurd (ground arith)

abbrev pub InRange : Option ℕ → Type 0
InRange none = Unit {0}
InRange (some b) = (1 ≤ b) × (b ≤ 6)

asked_type_valid : (q : Query) → good_type q ≡ true → valid_battle_type (asked_type q) ≡ true
unfolding valid_battle_type
asked_type_valid q h = go (get_param q "battle_type") h
  where
    go :
        (raw : String)
        → (str_eq raw "" || valid_battle_type raw) ≡ true
        → valid_battle_type (if str_eq raw "" then "ranked" else raw) ≡ true
    go raw k = elim (Bool-cases (str_eq raw "")) [
      | inl empty ↦ rw empty refl
      | inr named ↦ rw named (rw named at k)
    ]

default-valid : (t : String) → valid_battle_type t ≡ true → default_type t ≡ t
unfolding valid_battle_type
default-valid t h = ground (
  arith,
  str_eq_iff t "",
  str_eq_iff t "ranked",
  str_eq_iff t "soloRanked",
  str_eq_iff t "competitive",
  str_eq_iff t "any",
  str_eq_iff "" "ranked",
  str_eq_iff "" "soloRanked",
  str_eq_iff "" "competitive",
  str_eq_iff "" "any",
)

asked_bucket-InRange :
    (lib : Numbers) (q : Query) → good_bucket lib q ≡ true → InRange (asked_bucket lib q)
asked_bucket-InRange lib q h = ground arith

asked_min_lem :
    (lib : Numbers) (q : Query)
    → good_min lib q ≡ true
    → pos (min_battles_of (asked lib q)) ≡ asked_min lib q
asked_min_lem lib q h = ground arith

-- A response with win rates carries the result of BrawlerWinRates for the parameters that it reports,
-- and these are the ones that the request asks for: the battle type is one of the four, so that
-- BrawlerWinRates puts no default in its place, the bucket is absent or from 1 to 6, and the least
-- number of battles is the one that HAVING tests.
pub response-IsEffective :
    (lib : Numbers) (f : Float) (e : Env) (q : Query) (w : World) (r : WinRateResponse)
    → (win_rates_handler lib f e q w).0 ≡ ok (record { status = 200; body = rates r })
    → ((brawler_win_rates f e (reported r) w).0 ≡ ok (carried r))
      × (reported r ≡ asked lib q)
      × (valid_battle_type r.battle_type ≡ true)
      × (default_type r.battle_type ≡ r.battle_type)
      × InRange r.brawler_trophy_bucket
      × (pos (min_battles_of (reported r)) ≡ r.min_battles)
response-IsEffective lib f e q w r h = elim (Bool-cases (good_request lib q)) [
  | inl good ↦
      let (same, answered) =
        answered-params f e (asked lib q) w r
          (sym (ap (λ z. z.0) (handler-good lib f e q w good)) ∙ h) in
      let valid = asked_type_valid q (ground arith) in
      (
        subst (λ p. (brawler_win_rates f e p w).0 ≡ ok (carried r)) (sym same) answered,
        same,
        subst (λ (p : WinRateParams). valid_battle_type p.battle_type ≡ true) (sym same) valid,
        subst (λ (p : WinRateParams). default_type p.battle_type ≡ p.battle_type) (sym same)
            (default-valid (asked_type q) valid),
        subst (λ (p : WinRateParams). InRange p.brawler_trophy_bucket) (sym same)
            (asked_bucket-InRange lib q (ground arith)),
        subst (λ (p : WinRateParams). pos (min_battles_of p) ≡ p.min_battles) (sym same)
            (asked_min_lem lib q (ground arith)),
      )
  | inr flawed ↦
      let (refused, untouched) = handler-bad lib f e q w flawed in
      absurd (ground (arith, ap status_of h))
]
