-- ===== src/Ingestion/TeamResults/Perspective.antt =====
-- ingestion/battle_ingestor.go: the results as seen from the logs of the two teams.
use brawl_stars_guide.Base.{
  ℕ, ◌≡◌, inl, inr, refl, true, false, Text, String, str_eq, str_eq_iff, List, [], ◌∷◌, Bool-cases,
  ap, ◌∙◌, sym, subst,
}
use brawl_stars_guide.Apiclient.Types.{BattleParticipant}
use brawl_stars_guide.Ingestion.TeamResults.{
  opposite_result, plays, discoverer_team, results_from, resolve_team_results,
}

opposite_victory : opposite_result "victory" ≡ "defeat"
unfolding opposite_result
opposite_victory = refl

opposite_defeat : opposite_result "defeat" ≡ "victory"
unfolding opposite_result
opposite_defeat = refl

opposite_other :
    (r : String) → str_eq r "victory" ≡ false → str_eq r "defeat" ≡ false → opposite_result r ≡ r
unfolding opposite_result
opposite_other r v d = rw (v) (rw d)

twice_at :
    (t r : String)
    → r ≡ t
    → opposite_result (opposite_result t) ≡ t
    → opposite_result (opposite_result r) ≡ r
twice_at t r e h = subst (λ z. opposite_result (opposite_result z) ≡ z) (sym e) h

pub opposite_twice : (r : String) → opposite_result (opposite_result r) ≡ r
opposite_twice r = elim (Bool-cases (str_eq r "victory")) [
  | inl v ↦
      twice_at "victory" r ((str_eq_iff r "victory").0 v)
        (ap opposite_result opposite_victory ∙ opposite_defeat)
  | inr v ↦ elim (Bool-cases (str_eq r "defeat")) [
    | inl d ↦
        twice_at "defeat" r ((str_eq_iff r "defeat").0 d)
          (ap opposite_result opposite_defeat ∙ opposite_victory)
    | inr d ↦ ap opposite_result (opposite_other r v d) ∙ opposite_other r v d
  ]
]

-- Two logs of one battle of two teams give the teams the same results: with `tag` in the first team
-- and `other` only in the second, the results from the log of `tag`, where the battle ended with
-- `r`, are those from the log of `other`, where it ended with the opposite of `r`.
pub perspective_independent :
    (wide : ℕ → ℕ) (a b : List BattleParticipant) (r : String) (tag other : Text)
    → plays wide tag a ≡ true
    → plays wide other a ≡ false
    → plays wide other b ≡ true
    → resolve_team_results wide (a ∷ b ∷ []) r tag
      ≡ resolve_team_results wide (a ∷ b ∷ []) (opposite_result r) other
unfolding resolve_team_results results_from discoverer_team
perspective_independent wide a b r tag other first not_first second =
    simp (first, not_first, second, opposite_twice)
