-- ===== src/Server.antt =====
-- application/src/server/mod.rs: the flags of a server that decide on starts, stops and crashes, and
-- what happens when its container stops. Times are nanoseconds of a monotonic clock. What a handler
-- asks of other parts (a start in a task of its own, the removal of the container, the crash
-- triggers of the schedules) is the list of its effects, in order.
pub mod Crash
pub mod Power
mod Tests
use cyrogopus.Prelude.{
  ℕ, ◌-◌, ◌/◌, ◌^◌, Bool, true, false, not, List, [], ◌∷◌, ◌++◌, Option, none, some, ◌&&◌, ◌||◌,
  ltb, ◌==◌, is_some, unwrap_or, if◌then◌else◌,
}
use cyrogopus.Prelude.Int.{ℤ, pos, negsuc}
use cyrogopus.State.{
  ServerState, offline, starting, stopping, running, ServerStateLock, get_state, set_state,
  is_state,
}

pub record InnerServer : Type 0 where
  pub state : ServerStateLock
  pub suspended : Bool
  pub installing : Bool
  pub restoring : Bool
  pub transferring : Bool
  pub restarting : Bool
  pub stopping : Bool
  pub last_crash : Option ℕ
  pub crash_handled : Bool
  pub has_container : Bool

-- The settings that the handlers read.
pub record Config : Type 0 where
  pub delete_container_on_stop : Bool
  pub crash_detection_enabled : Bool
  pub detect_clean_exit_as_crash : Bool
  pub crash_timeout : ℕ  -- in seconds

pub data Effect : Type 0 where
  start_server : Effect
  crash_trigger : Effect
  destroy_container : Effect

unfoldable pub is_locked_state : InnerServer → Bool
is_locked_state s = s.suspended || (s.installing || (s.restoring || s.transferring))

abbrev destroy_if : Config → InnerServer → InnerServer × List Effect
destroy_if cfg s =
    if cfg.delete_container_on_stop
    then (record s { has_container = false }, destroy_container ∷ [])
    else (s, [])

-- `container_state.exit_code.is_some_and(|code| code == 0)`.
abbrev is_zero : Option ℤ → Bool
is_zero none = false
is_zero (some (pos n)) = n == 0
is_zero (some (negsuc n)) = false

abbrev after : List Effect → InnerServer × List Effect → InnerServer × List Effect
after before (s, effects) = (s, before ++ effects)

-- A crash that is dealt with: restart, unless the last one was less than the timeout ago.
unfoldable pub handle_crash : Config → InnerServer → ℕ → InnerServer × List Effect
handle_crash cfg s now =
    let restart : InnerServer × List Effect =
      (record s { last_crash = some now }, crash_trigger ∷ start_server ∷ []) in
    elim (s.last_crash) [
      | none ↦ restart
      | some last ↦
          if ltb ((now - last) / 10 ^ 9) cfg.crash_timeout
          then after (crash_trigger ∷ []) (destroy_if cfg s)
          else restart
    ]

-- The branch of the websocket sender for a container that is empty, dead, exited or gone.
unfoldable pub container_stopped :
    Config → InnerServer → Option ℤ → Bool → ℕ → InnerServer × List Effect
unfolding handle_crash
container_stopped cfg server exit_code oom_killed now =
    let s = record server { state = set_state server.state offline } in
    if s.restarting
    then (
      record s { crash_handled = true; restarting = false; stopping = false },
      start_server ∷ [],
    )
    else if s.stopping
    then destroy_if cfg (record s { crash_handled = true; stopping = false })
    else if cfg.crash_detection_enabled && not s.crash_handled
    then (let handled = record s { crash_handled = true } in
        if is_zero exit_code && (not oom_killed && not cfg.detect_clean_exit_as_crash)
        then destroy_if cfg handled
        else handle_crash cfg handled now)
    else (s, [])

-- What docker reports of a container.
pub data ContainerStatus : Type 0 where
  running_status : ContainerStatus
  stopped_status : ContainerStatus  -- empty, dead, exited, or no status
  other_status : ContainerStatus

-- The `match` on the status: a running container that no one started by a power action.
unfoldable pub container_update :
    Config → InnerServer → ContainerStatus → Option ℤ → Bool → ℕ → InnerServer × List Effect
unfolding container_stopped
container_update cfg s running_status exit_code oom_killed now =
    if is_state (get_state s.state) running
      || (is_state (get_state s.state) starting || is_state (get_state s.state) stopping)
    then (s, [])
    else (record s { state = set_state s.state running }, [])
container_update cfg s stopped_status exit_code oom_killed now =
    container_stopped cfg s exit_code oom_killed now
container_update cfg s other_status exit_code oom_killed now = (s, [])
