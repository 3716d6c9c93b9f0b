-- ===== src/Server/Power.antt =====
-- application/src/server/mod.rs: the power actions of a server. What docker, the panel and the disk
-- answer is given to each call. The power triggers that reach the schedules are listed in order. A
-- call runs without others in between.
pub mod Start
pub mod Stop
use cyrogopus.Prelude.{
  ℕ, Bool, true, false, not, List, [], ◌∷◌, ◌++◌, Option, none, some, ◌&&◌, ◌||◌, if◌then◌else◌,
  String, str_eq, unwrap_or,
}
use cyrogopus.State.{
  ServerState, offline, starting, stopping, running, ServerStateLock, Outcome, done, refused,
  failed, get_state, set_state, is_state, execute_action,
}
use cyrogopus.Server.{InnerServer, is_locked_state}

-- application/src/models.rs.
pub data ServerPowerAction : Type 0 where
  start_action stop_action restart_action kill_action : ServerPowerAction

unfoldable pub from_str : String → Option ServerPowerAction
from_str s =
    if str_eq s "start"
    then some start_action
    else if str_eq s "stop"
    then some stop_action
    else if str_eq s "restart"
    then some restart_action
    else if str_eq s "kill"
    then some kill_action
    else none

pub data PowerError : Type 0 where
  locked_state already_running disk_full another_action : PowerError
  already_stopped already_stopping already_restarting : PowerError
  docker_error : PowerError

pub data PowerResult : Type 0 where
  ok : PowerResult
  err : PowerError → PowerResult

-- The server, the result, and the power triggers.
abbrev pub Reply : Type 0
Reply = InnerServer × PowerResult × List ServerPowerAction

-- How far the action of `start` comes: the ownership of the files, the image, the set-up of the
-- container, its start.
pub data StartStep : Type 0 where
  chown_failed pull_failed setup_failed docker_failed started : StartStep

-- `synced` is whether the server is suspended by the configuration that the panel answers with, and
-- `none` where it does not answer.
pub record StartProgress : Type 0 where
  pub synced : Option Bool
  pub step : StartStep

abbrev step_done : StartStep → Bool
step_done started = true
step_done _ = false

abbrev pub is_started : StartProgress → Bool
is_started progress = step_done progress.step

-- The container and the flag that its set-up clears.
abbrev after_step : InnerServer → StartStep → InnerServer
after_step s chown_failed = record s { has_container = false }
after_step s pull_failed = record s { has_container = false }
after_step s setup_failed = record s { has_container = false; crash_handled = false }
after_step s docker_failed = record s { has_container = true; crash_handled = false }
after_step s started = record s { has_container = true; crash_handled = false }

-- What the action of `start` leaves besides the state.
abbrev pub after_start : InnerServer → StartProgress → InnerServer
after_start s progress =
    after_step (record s { suspended = unwrap_or progress.synced s.suspended }) progress.step

abbrev triggers : Bool → ServerPowerAction → List ServerPowerAction
triggers skip action = if skip then [] else action ∷ []

start_reply : InnerServer → StartProgress → Bool → ServerStateLock × Outcome → Reply
start_reply s progress skip (lock, done) =
    (record (after_start s progress) { state = lock }, ok, triggers skip start_action)
start_reply s progress skip (lock, refused) = (record s { state = lock }, err another_action, [])
start_reply s progress skip (lock, failed) =
    (record (after_start s progress) { state = lock }, err docker_error, [])

-- `timeout` is what `execute_action` saw of the lock while it waited, and `full` the disk's answer.
unfoldable pub start : InnerServer → Bool → Option (List Bool) → Bool → StartProgress → Reply
unfolding is_locked_state start_reply
start s full timeout skip progress =
    if is_locked_state s
    then (s, err locked_state, [])
    else if not (is_state (get_state s.state) offline)
    then (s, err already_running, [])
    else if full
    then (s, err disk_full, [])
    else start_reply s progress skip
        (execute_action s.state starting (λ acquired l. (l, is_started progress)) timeout)

-- `killed` says whether docker killed the container.
unfoldable pub kill : InnerServer → Bool → Bool → Reply
kill s skip killed =
    if is_state (get_state s.state) offline
    then (s, ok, [])
    else if not s.has_container
    then (s, ok, [])
    else if killed
    then (
      record s { stopping = true; state = set_state s.state offline },
      ok,
      triggers skip kill_action,
    )
    else (record s { stopping = true }, ok, [])

stop_reply : InnerServer → Bool → ServerStateLock × Outcome → Reply
stop_reply s skip (lock, done) =
    (record s { stopping = true; state = lock }, ok, triggers skip stop_action)
stop_reply s skip (lock, refused) =
    (record s { stopping = false; state = lock }, err another_action, [])
stop_reply s skip (lock, failed) =
    (record s { stopping = false; state = lock }, err docker_error, [])

-- The action of `stop` sends a signal, a command or a docker stop, and never fails.
unfoldable pub stop : InnerServer → Option (List Bool) → Bool → Reply
unfolding stop_reply
stop s timeout skip =
    if is_state (get_state s.state) offline
    then (s, err already_stopped, [])
    else if is_state (get_state s.state) stopping
    then (s, err already_stopping, [])
    else if not s.has_container
    then (s, ok, [])
    else stop_reply s skip (execute_action s.state stopping (λ acquired l. (l, true)) timeout)

abbrev and_then : Reply → (InnerServer → Reply) → Reply
and_then (s, ok, ts) f = let (s', r, us) = f s in (s', r, ts ++ us)
and_then (s, err e, ts) f = (s, err e, ts)

abbrev mark_restarting : InnerServer → Reply
mark_restarting s = (record s { restarting = true }, ok, restart_action ∷ [])

abbrev trigger_restart : InnerServer → Reply
trigger_restart s = (s, ok, restart_action ∷ [])

unfoldable pub restart : InnerServer → Bool → Option (List Bool) → StartProgress → Reply
restart s full timeout progress =
    if s.restarting
    then (s, err already_restarting, [])
    else if not (is_state (get_state s.state) offline)
    then (if not (is_state (get_state s.state) stopping)
        then and_then (stop s timeout true) mark_restarting
        else mark_restarting s)
    else and_then (start s full timeout true progress) trigger_restart

-- What happens while a stop waits for the container: it changes the server, and may end the wait
-- before its time is up.
pub record Wait : Type 0 where
  pub meanwhile : InnerServer → InnerServer
  pub ended : Bool
  pub killed : Bool

unfoldable pub stop_with_kill_timeout : InnerServer → Bool → Wait → Reply
stop_with_kill_timeout s skip wait =
    if is_state (get_state s.state) offline
    then (s, ok, [])
    else if not s.has_container
    then (s, ok, [])
    else and_then
        (if not (is_state (get_state s.state) stopping) then stop s none skip else (s, ok, []))
        (λ s'.
          if wait.ended
          then (wait.meanwhile s', ok, [])
          else kill (wait.meanwhile s') skip wait.killed)

unfoldable pub restart_with_kill_timeout :
    InnerServer → Bool → Option (List Bool) → StartProgress → Wait → Reply
restart_with_kill_timeout s full timeout progress wait =
    if s.restarting
    then (s, err already_restarting, [])
    else if not (is_state (get_state s.state) offline)
    then (if not (is_state (get_state s.state) stopping)
        then and_then (stop_with_kill_timeout s true wait) mark_restarting
        else mark_restarting s)
    else and_then (start s full timeout true progress) trigger_restart
