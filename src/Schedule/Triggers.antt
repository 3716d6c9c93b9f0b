-- ===== src/Schedule/Triggers.antt =====
-- application/src/server/schedule/mod.rs: when two triggers are the same, and which are cron expressions.
use cyrogopus.Prelude.{
  ℕ, String, Bool, true, false, ◌&&◌, List, [], ◌∷◌, ◌++◌, ◌≡◌, refl, ap, arith, if◌then◌else◌,
  str_eq, ◌==◌,
}
use cyrogopus.Server.Power.{
  ServerPowerAction, start_action, stop_action, restart_action, kill_action,
}
use cyrogopus.State.{to_u8}
use cyrogopus.Schedule.{
  ScheduleTrigger, cron, power_action, server_state, crash, same_action, same_trigger,
  same_triggers, kept_triggers, cron_tasks,
}

abbrev kind_of : ScheduleTrigger → ℕ
kind_of (cron s) = 0
kind_of (power_action a) = 1
kind_of (server_state x) = 2
kind_of crash = 3

abbrev action_number : ServerPowerAction → ℕ
action_number start_action = 0
action_number stop_action = 1
action_number restart_action = 2
action_number kill_action = 3

-- What a trigger has besides its kind: the number of its action or of its state, or an expression.
abbrev number_of : ScheduleTrigger → ℕ
number_of (power_action a) = action_number a
number_of (server_state x) = to_u8 x
number_of _ = 0

abbrev text_of : ScheduleTrigger → String
text_of (cron s) = s
text_of _ = ""

-- The same triggers in the same order.
abbrev pub agree : List ScheduleTrigger → List ScheduleTrigger → Bool
agree [] [] = true
agree (t ∷ ts) (u ∷ us) =
    (kind_of t == kind_of u && (number_of t == number_of u && str_eq (text_of t) (text_of u)))
    && agree ts us
agree _ _ = false

same_action-number :
    (a b : ServerPowerAction) → same_action a b ≡ (action_number a == action_number b)
same_action-number start_action start_action = refl
same_action-number start_action stop_action = refl
same_action-number start_action restart_action = refl
same_action-number start_action kill_action = refl
same_action-number stop_action start_action = refl
same_action-number stop_action stop_action = refl
same_action-number stop_action restart_action = refl
same_action-number stop_action kill_action = refl
same_action-number restart_action start_action = refl
same_action-number restart_action stop_action = refl
same_action-number restart_action restart_action = refl
same_action-number restart_action kill_action = refl
same_action-number kill_action start_action = refl
same_action-number kill_action stop_action = refl
same_action-number kill_action restart_action = refl
same_action-number kill_action kill_action = refl

same_trigger-kind :
    (t u : ScheduleTrigger)
    → same_trigger t u
      ≡ (kind_of t == kind_of u && (number_of t == number_of u && str_eq (text_of t) (text_of u)))
same_trigger-kind (cron s) (cron t) = ground arith
same_trigger-kind (cron s) (power_action b) = refl
same_trigger-kind (cron s) (server_state y) = refl
same_trigger-kind (cron s) crash = refl
same_trigger-kind (power_action a) (cron t) = refl
same_trigger-kind (power_action a) (power_action b) = ground (arith, same_action-number a b)
same_trigger-kind (power_action a) (server_state y) = refl
same_trigger-kind (power_action a) crash = refl
same_trigger-kind (server_state x) (cron t) = refl
same_trigger-kind (server_state x) (power_action b) = refl
same_trigger-kind (server_state x) (server_state y) = ground arith
same_trigger-kind (server_state x) crash = refl
same_trigger-kind crash (cron t) = refl
same_trigger-kind crash (power_action b) = refl
same_trigger-kind crash (server_state y) = refl
same_trigger-kind crash crash = refl

pub same_triggers-agree : (ts us : List ScheduleTrigger) → same_triggers ts us ≡ agree ts us
unfolding same_triggers
same_triggers-agree [] [] = refl
same_triggers-agree [] (u ∷ us) = refl
same_triggers-agree (t ∷ ts) [] = refl
same_triggers-agree (t ∷ ts) (u ∷ us) =
    ground (arith, same_trigger-kind t u, same_triggers-agree ts us)

-- The triggers that are matched against events, and the expressions of the others.
abbrev is_cron : ScheduleTrigger → Bool
is_cron (cron s) = true
is_cron _ = false

abbrev expression : ScheduleTrigger → List String
expression (cron s) = s ∷ []
expression _ = []

abbrev pub without_cron : List ScheduleTrigger → List ScheduleTrigger
without_cron [] = []
without_cron (t ∷ ts) = let rest = without_cron ts in if is_cron t then rest else t ∷ rest

abbrev pub crons : List ScheduleTrigger → List String
crons [] = []
crons (t ∷ ts) = expression t ++ crons ts

pub kept_triggers-without_cron : (ts : List ScheduleTrigger) → kept_triggers ts ≡ without_cron ts
unfolding kept_triggers
kept_triggers-without_cron [] = refl
kept_triggers-without_cron (cron s ∷ ts) = kept_triggers-without_cron ts
kept_triggers-without_cron (power_action a ∷ ts) =
    ap (λ r. power_action a ∷ r) (kept_triggers-without_cron ts)
kept_triggers-without_cron (server_state s ∷ ts) =
    ap (λ r. server_state s ∷ r) (kept_triggers-without_cron ts)
kept_triggers-without_cron (crash ∷ ts) = ap (λ r. crash ∷ r) (kept_triggers-without_cron ts)

pub cron_tasks-crons : (ts : List ScheduleTrigger) → cron_tasks ts ≡ crons ts
unfolding cron_tasks
cron_tasks-crons [] = refl
cron_tasks-crons (cron s ∷ ts) = ap (λ r. s ∷ r) (cron_tasks-crons ts)
cron_tasks-crons (power_action a ∷ ts) = cron_tasks-crons ts
cron_tasks-crons (server_state s ∷ ts) = cron_tasks-crons ts
cron_tasks-crons (crash ∷ ts) = cron_tasks-crons ts
