-- ===== src/State/Tests.antt =====
-- Runs of the state lock.
use cyrogopus.Prelude.{true, false, [], ◌∷◌, none, some, ◌≡◌, refl, arith}
use cyrogopus.State.{
  offline, starting, stopping, running, ServerStateLock, new, get_state, set_state, execute_action,
}
use cyrogopus.State.Stream.{IsFaithful, set_states, set_states-IsFaithful}
use cyrogopus.State.Action.{Action, execute_action-failed}
use cyrogopus.State.Race.{World, calling, acting, Reach, both-act}

set_states-IsFaithful_example : IsFaithful (set_states new (starting ∷ starting ∷ running ∷ []))
set_states-IsFaithful_example = set_states-IsFaithful (starting ∷ starting ∷ running ∷ [])

abbrev up : ServerStateLock
up = record { state = 3; locked = false; triggered = []; sent = [] }

abbrev held : ServerStateLock
held = record { state = 3; locked = true; triggered = []; sent = [] }

-- An action that sets the state itself and then fails.
abbrev gives_up : Action
gives_up acquired l = (set_state l offline, false)

abbrev works : Action
works acquired l = (l, true)

execute_action-failed_example :
    (get_state (execute_action up stopping gives_up none).0 ≡ some running)
    × ((execute_action up stopping gives_up none).0.locked ≡ false)
unfolding execute_action
execute_action-failed_example = execute_action-failed up stopping running gives_up none refl refl

abbrev quiet : World
quiet = record { locked = false; phase = λ i. calling }

both-act_example : (u : World) × Reach quiet u × (u.phase 1 ≡ acting) × (u.phase 2 ≡ acting)
both-act_example = both-act quiet 1 2 (λ e. absurd (ground (arith, e))) refl refl refl
