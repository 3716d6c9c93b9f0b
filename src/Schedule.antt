-- ===== src/Schedule.antt =====
-- application/src/server/schedule: the schedules of a server. `mod.rs` has a schedule with its
-- triggers, and `manager.rs` the list of them, which a new configuration updates. The conditions are
-- in `Condition`, and the run of a schedule's actions in `Executor`. A uuid is a number; the
-- condition and the actions of a schedule are values of any types, that are only stored here. A cron
-- expression is its source text, and its task is the text that it was spawned for.
pub mod Triggers
pub mod Update
pub mod Condition
pub mod Executor
pub mod Action
mod Tests
use cyrogopus.Prelude.{
  ℕ, String, Bool, true, false, List, [], ◌∷◌, ◌++◌, Option, none, some, ◌&&◌, ◌==◌, any, str_eq,
  if◌then◌else◌,
}
use cyrogopus.State.{ServerState, same}
use cyrogopus.Server.Power.{
  ServerPowerAction, start_action, stop_action, restart_action, kill_action,
}

pub data ScheduleTrigger : Type 0 where
  cron : String → ScheduleTrigger
  power_action : ServerPowerAction → ScheduleTrigger
  server_state : ServerState → ScheduleTrigger
  crash : ScheduleTrigger

-- The derived `==` of the power actions.
abbrev pub same_action : ServerPowerAction → ServerPowerAction → Bool
same_action start_action start_action = true
same_action stop_action stop_action = true
same_action restart_action restart_action = true
same_action kill_action kill_action = true
same_action _ _ = false

abbrev pub same_trigger : ScheduleTrigger → ScheduleTrigger → Bool
same_trigger (cron s) (cron t) = str_eq s t
same_trigger (power_action a) (power_action b) = same_action a b
same_trigger (server_state s) (server_state t) = same s t
same_trigger crash crash = true
same_trigger _ _ = false

unfoldable pub same_triggers : List ScheduleTrigger → List ScheduleTrigger → Bool
same_triggers [] [] = true
same_triggers (s ∷ ss) (t ∷ ts) = same_trigger s t && same_triggers ss ts
same_triggers _ _ = false

-- `create_trigger_tasks`: the triggers that are kept, and the cron tasks that are spawned.
unfoldable pub kept_triggers : List ScheduleTrigger → List ScheduleTrigger
kept_triggers [] = []
kept_triggers (cron s ∷ ts) = kept_triggers ts
kept_triggers (t ∷ ts) = t ∷ kept_triggers ts

unfoldable pub cron_tasks : List ScheduleTrigger → List String
cron_tasks [] = []
cron_tasks (cron s ∷ ts) = s ∷ cron_tasks ts
cron_tasks (t ∷ ts) = cron_tasks ts

module _ (Condition Actions : Type 0) where
  -- A schedule of the configuration.
  pub record RawSchedule : Type 0 where
    pub uuid : ℕ
    pub triggers : List ScheduleTrigger
    pub condition : Condition
    pub actions : Actions

  pub record Schedule : Type 0 where
    pub uuid : ℕ
    pub triggers : List ScheduleTrigger
    pub condition : Condition
    pub raw_actions : Actions
    pub trigger_tasks : List String

  unfoldable pub new : RawSchedule → Schedule
  unfolding kept_triggers cron_tasks
  new raw = record {
    uuid = raw.uuid;
    triggers = kept_triggers raw.triggers;
    condition = raw.condition;
    raw_actions = raw.actions;
    trigger_tasks = cron_tasks raw.triggers;
  }

  -- The tasks that stand are aborted.
  unfoldable pub recreate_triggers : Schedule → List ScheduleTrigger → Schedule
  unfolding kept_triggers cron_tasks
  recreate_triggers s triggers = record s {
    triggers = kept_triggers triggers;
    trigger_tasks = cron_tasks triggers;
  }

  unfoldable pub update : Schedule → RawSchedule → Schedule
  update s raw = record s { condition = raw.condition; raw_actions = raw.actions }

  -- What `update_schedules` makes of a schedule that is there.
  unfoldable pub refresh : Schedule → RawSchedule → Schedule
  unfolding same_triggers recreate_triggers update
  refresh s raw =
      if same_triggers s.triggers raw.triggers
      then update s raw
      else update (recreate_triggers s raw.triggers) raw

  abbrev pub is_listed : List RawSchedule → ℕ → Bool
  is_listed raws uuid = any (λ raw. raw.uuid == uuid) raws

  unfoldable pub retain_listed : List RawSchedule → List Schedule → List Schedule
  retain_listed raws [] = []
  retain_listed raws (s ∷ ss) =
      let rest = retain_listed raws ss in if is_listed raws s.uuid then s ∷ rest else rest

  -- One round of the loop: the schedule with the uuid is updated, or a new one is added at the end.
  unfoldable pub put : List Schedule → RawSchedule → List Schedule
  put [] raw = new raw ∷ []
  put (s ∷ ss) raw =
      let rest = put ss raw in if s.uuid == raw.uuid then refresh s raw ∷ ss else s ∷ rest

  unfoldable pub put_all : List Schedule → List RawSchedule → List Schedule
  put_all ss [] = ss
  put_all ss (raw ∷ raws) = put_all (put ss raw) raws

  -- `raw_schedules` is `server.configuration.schedules`.
  unfoldable pub update_schedules : List Schedule → List RawSchedule → List Schedule
  unfolding retain_listed put_all
  update_schedules ss raw_schedules = put_all (retain_listed raw_schedules ss) raw_schedules
