-- ===== src/Schedule/Action/Run.antt =====
-- application/src/server/schedule: a run of a schedule, from its actions to what it reports.
use cyrogopus.Prelude.{
  ℕ, String, Bool, true, List, [], ◌∷◌, ◌++◌, ◌≡◌, refl, arith, some, All, if◌then◌else◌, map, all,
}
use cyrogopus.Schedule.Action.{ScheduleAction, ignore_failure, View, Effect}
use cyrogopus.Schedule.Action.Execute.{execute}
use cyrogopus.Schedule.Executor
use cyrogopus.Schedule.Executor.{Completion, run_actions}
use cyrogopus.Schedule.Executor.Outcome.{is_passed}

-- An action with its uuid, in the view of the server that it finds.
pub record Step : Type 0 where
  pub uuid : ℕ
  pub view : View
  pub action : ScheduleAction

abbrev pub executed : Step → Executor.ScheduleAction
executed s = record {
  uuid = s.uuid;
  ignore_failure = ignore_failure s.action;
  result = (execute s.view s.action).1;
}

-- The calls of the actions up to the first that ends the run.
unfoldable pub calls : List Step → List Effect
calls [] = []
calls (s ∷ steps) =
    (execute s.view s.action).0 ++ (if is_passed (executed s) then calls steps else [])

abbrev pub complete : List Step → Completion
complete steps = run_actions [] (map executed steps)

abbrev pub ignores_failure : Step → Bool
ignores_failure s = ignore_failure s.action

abbrev pub IsLocked : Step → Type 0
IsLocked s = s.view.locked ≡ true

execute-locked :
    (v : View) (action : ScheduleAction)
    → v.locked ≡ true
    → execute v action ≡ ([], some "server is in a locked state.")
unfolding execute
execute-locked v action e = rw e refl

calls-locked : (steps : List Step) → All IsLocked steps → calls steps ≡ []
unfolding calls
calls-locked [] h = refl
calls-locked (s ∷ steps) (e, h) =
    ground (arith, execute-locked s.view s.action e, calls-locked steps h)

successful-locked :
    (steps : List Step) (errors : List (ℕ × String))
    → All IsLocked steps
    → (run_actions errors (map executed steps)).successful ≡ all ignores_failure steps
unfolding run_actions
successful-locked [] errors h = refl
successful-locked (s ∷ steps) errors (e, h) = ground (
  arith,
  execute-locked s.view s.action e,
  successful-locked steps ((s.uuid, "server is in a locked state.") ∷ errors) h,
)

-- On a locked server no action of a schedule makes a call, and the run is successful exactly if
-- every action has its failure ignored.
pub run-locked :
    (steps : List Step)
    → All IsLocked steps
    → (calls steps ≡ []) × ((complete steps).successful ≡ all ignores_failure steps)
run-locked steps h = (calls-locked steps h, successful-locked steps [] h)
