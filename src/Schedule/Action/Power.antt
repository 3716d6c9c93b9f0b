-- ===== src/Schedule/Action/Power.antt =====
-- application/src/server/schedule/actions.rs: power actions, console commands, backups and the
-- start-up settings.
use cyrogopus.Prelude.{
  ℕ, String, Bool, not, ◌&&◌, ◌||◌, Option, none, some, List, [], ◌∷◌, if◌then◌else◌, ltb, concat,
}
use cyrogopus.Activity.{
  ActivityEvent, power_start, power_stop, power_restart, power_kill, console_command,
}
use cyrogopus.State.{offline, stopping, is_state}
use cyrogopus.Server.Power.{
  ServerPowerAction, start_action, stop_action, restart_action, kill_action,
}
use cyrogopus.Websocket.Handler.{CallResult, succeeded, said, unexpected}
use cyrogopus.Schedule.Action.{
  View, Out, Effect, power, send_stdin, request_backup, run_backup, set_variable, set_command,
  set_docker_image, log_activity, succeeds, refuse, success, then_out, guard, found, attempt,
  finish_task,
}

abbrev pub kill_timeout : View → Option ℕ
kill_timeout v =
    if v.auto_kill_enabled && ltb 0 v.auto_kill_seconds then some v.auto_kill_seconds else none

-- A call whose error is downcast to a text, which is told in small letters.
abbrev pub after_call : View → Effect → ActivityEvent → String → CallResult → Out
after_call v e event message succeeded = then_out e (then_out (log_activity event) success)
after_call v e event message (said text) = (e ∷ [], some (v.make_ascii_lowercase text))
after_call v e event message unexpected = (e ∷ [], some message)

abbrev pub call : View → Effect → ActivityEvent → String → Out
call v e event message = after_call v e event message (v.outcome e)

unfoldable pub send_power : View → ServerPowerAction → Out
send_power v start_action =
    guard (is_state v.state offline) "server is already running or starting." (
      call v (power start_action none) power_start
        "an unexpected error occurred while starting the server.")
send_power v restart_action = guard (not v.restarting) "server is already restarting." (
    call v (power restart_action (kill_timeout v)) power_restart
      "an unexpected error occurred while restarting the server.")
send_power v stop_action =
    guard (not (is_state v.state offline || is_state v.state stopping))
      "server is already offline or stopping."
      (call v (power stop_action (kill_timeout v)) power_stop
        "an unexpected error occurred while stopping the server.")
send_power v kill_action = guard (not (is_state v.state offline)) "server is already offline." (
    attempt v (power kill_action none) "an unexpected error occurred while killing the server."
      (then_out (log_activity power_kill) success))

-- A command that the console does not take is not an error.
unfoldable pub send_command : View → String → Out
send_command v command = guard (not (is_state v.state offline)) "server is not running." (
    if v.has_stdin
    then (if succeeds v (send_stdin (concat command "\n"))
        then then_out (send_stdin (concat command "\n"))
            (then_out (log_activity console_command) success)
        else then_out (send_stdin (concat command "\n")) success)
    else refuse "failed to get stdin (is server offline?)")

-- The backup with the adapter and the uuid that the panel gave.
abbrev pub start_backup : View → Bool → List String → ℕ × ℕ → Out
start_backup v foreground ignored b = guard (not (v.has_backup b.1)) "backup already exists" (
    then_out (run_backup b.0 b.1 ignored)
      (finish_task foreground (succeeds v (run_backup b.0 b.1 ignored)) "failed to create backup"))

unfoldable pub create_backup : View → Bool → Option String → List String → Out
create_backup v foreground name ignored =
    then_out (request_backup name ignored)
      (found v.backup "failed to create backup" (start_backup v foreground ignored))

unfoldable pub update_startup_variable : View → String → String → Out
update_startup_variable v variable value =
    attempt v (set_variable variable value) "failed to set server startup variable" success

unfoldable pub update_startup_command : View → String → Out
update_startup_command v command =
    attempt v (set_command command) "failed to set server startup command" success

unfoldable pub update_startup_docker_image : View → String → Out
update_startup_docker_image v image =
    attempt v (set_docker_image image) "failed to set server startup docker image" success
