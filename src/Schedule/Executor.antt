-- ===== src/Schedule/Executor.antt =====
-- application/src/server/schedule/mod.rs: one run of the executor task of a schedule. Each action
-- comes with what its execution returns, `none` for success. The errors are a hash map by the uuid
-- of the action, the newest first.
pub mod Outcome
use cyrogopus.Prelude.{
  ℕ, String, Bool, true, false, not, List, [], ◌∷◌, ◌++◌, Option, none, some, if◌then◌else◌, ◌==◌,
}

-- An action of a schedule, as far as the executor reads it, and what its execution returns.
pub record ScheduleAction : Type 0 where
  pub uuid : ℕ
  pub ignore_failure : Bool
  pub result : Option String

-- The messages to the websocket: the status with its step, and the error of a step.
pub data Message : Type 0 where
  status : Bool → Option ℕ → Message
  step_error : ℕ → String → Message

pub record Completion : Type 0 where
  pub successful : Bool
  pub errors : List (ℕ × String)
  pub sent : List Message

abbrev sending : List Message → Completion → Completion
sending before c = record c { sent = before ++ c.sent }

-- The loop over the actions, from the errors of those before; then the final status.
unfoldable pub run_actions : List (ℕ × String) → List ScheduleAction → Completion
run_actions errors [] = record { successful = true; errors = errors; sent = status false none ∷ [] }
run_actions errors (a ∷ actions) = elim (a.result) [
  | none ↦ sending (status true (some a.uuid) ∷ []) (run_actions errors actions)
  | some e ↦
      let rest = run_actions ((a.uuid, e) ∷ errors) actions in
      let before = status true (some a.uuid) ∷ step_error a.uuid e ∷ [] in
      if not a.ignore_failure
      then record {
        successful = false;
        errors = (a.uuid, e) ∷ errors;
        sent = before ++ status false none ∷ [];
      }
      else sending before rest
]

-- `none` where the condition is read and does not hold.
unfoldable pub execute : Bool → Bool → List ScheduleAction → Option Completion
unfolding run_actions
execute skip_condition holds actions =
    if not skip_condition
    then (if not holds then none else some (run_actions [] actions))
    else some (run_actions [] actions)
