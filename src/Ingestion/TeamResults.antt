-- ===== src/Ingestion/TeamResults.antt =====
-- ingestion/battle_ingestor.go: resolveTeamResults and oppositeResult.
pub mod Perspective
use brawl_stars_guide.Base.{
  ℕ, zero, suc, Bool, Text, text_eq, String, str_eq, List, [], ◌∷◌, Option, none, some, ◌==◌,
  if◌then◌else◌, any_where, get_elem?, length,
}
use brawl_stars_guide.Apiclient.Types.{BattleParticipant}
use brawl_stars_guide.Apiclient.Tags.{normalize_tag}

unfoldable pub opposite_result : String → String
opposite_result result =
    if str_eq result "victory"
    then "defeat"
    else if str_eq result "defeat"
    then "victory"
    else result

abbrev pub plays : (ℕ → ℕ) → Text → List BattleParticipant → Bool
plays wide tag = any_where (λ p. text_eq (normalize_tag wide p.tag) tag)

-- The first team with the discoverer; `none` is -1.
unfoldable pub discoverer_team : (ℕ → ℕ) → Text → ℕ → List (List BattleParticipant) → Option ℕ
discoverer_team wide tag i [] = none
discoverer_team wide tag i (team ∷ teams) =
    let rest = discoverer_team wide tag (suc i) teams in
    if plays wide tag team then some i else rest

-- The result of team `i` once the discoverer's team is known.
abbrev pub team_result : Option ℕ → String → ℕ → String
team_result none result i = ""
team_result (some d) result i = if i == d then result else opposite_result result

unfoldable pub results_from : Option ℕ → String → ℕ → List (List BattleParticipant) → List String
results_from d result i [] = []
results_from d result i (team ∷ teams) =
    team_result d result i ∷ results_from d result (suc i) teams

-- The map from team index to result, as the list of the results in order of the index.
unfoldable pub resolve_team_results :
    (ℕ → ℕ) → List (List BattleParticipant) → String → Text → List String
resolve_team_results wide teams result tag =
    results_from (discoverer_team wide tag 0 teams) result 0 teams
