-- ===== src/Schedule/Executor/Outcome.antt =====
-- application/src/server/schedule/mod.rs: the success, the steps and the errors of a run.
use cyrogopus.Prelude.{
  ℕ, String, Bool, not, List, [], ◌∷◌, none, some, ◌≡◌, refl, arith, ◌||◌, is_some, all,
  if◌then◌else◌, Option-cases, inl, inr,
}
use cyrogopus.Schedule.Executor.{ScheduleAction, Message, status, step_error, run_actions}

-- An action that does not end the run: it succeeds, or its failure is ignored.
abbrev pub is_passed : ScheduleAction → Bool
is_passed a = not (is_some a.result) || a.ignore_failure

-- The actions up to the first that ends the run, that one included.
abbrev pub taken : List ScheduleAction → List ScheduleAction
taken [] = []
taken (a ∷ actions) = a ∷ (if is_passed a then taken actions else [])

-- The steps that the status messages name, in order.
abbrev pub steps : List Message → List ℕ
steps [] = []
steps (status running none ∷ ms) = steps ms
steps (status running (some uuid) ∷ ms) = uuid ∷ steps ms
steps (step_error uuid e ∷ ms) = steps ms

abbrev pub uuids : List ScheduleAction → List ℕ
uuids [] = []
uuids (a ∷ actions) = a.uuid ∷ uuids actions

-- The errors of the actions that were run, put before those given.
abbrev pub errors_of : List ScheduleAction → List (ℕ × String) → List (ℕ × String)
errors_of [] errors = errors
errors_of (a ∷ actions) errors = elim (a.result) [
  | none ↦ errors_of actions errors
  | some e ↦ errors_of actions ((a.uuid, e) ∷ errors)
]

-- A run is successful exactly if no action fails whose failure is not ignored. Its status messages
-- name the actions up to the first such failure, each once and in order, and its errors are those
-- of these actions.
run_actions_lem :
    (errors : List (ℕ × String)) (actions : List ScheduleAction)
    → ((run_actions errors actions).successful ≡ all is_passed actions)
      × (steps (run_actions errors actions).sent ≡ uuids (taken actions))
      × ((run_actions errors actions).errors ≡ errors_of (taken actions) errors)
unfolding run_actions
run_actions_lem errors [] = (refl, refl, refl)
run_actions_lem errors (a ∷ actions) = elim (Option-cases a.result) [
  | inl e ↦ ground (arith, e, run_actions_lem errors actions)
  | inr (m, e) ↦ ground (arith, e, run_actions_lem ((a.uuid, m) ∷ errors) actions)
]
