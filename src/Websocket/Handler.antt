-- ===== src/Websocket/Handler.antt =====
-- application/src/server/websocket/message_handler.rs: what a message that was let through makes the
-- server do. The calls of the power actions are listed with what they return; the results of those
-- and of the console are given.
pub mod Authority
use cyrogopus.Prelude.{
  ℕ, String, Bool, true, false, not, List, [], ◌∷◌, ◌++◌, Option, none, some, ◌&&◌, ◌||◌, ltb, map,
  if◌then◌else◌,
}
use cyrogopus.Permissions.{
  Permission, control_console, control_start, control_stop, control_restart, has_permission,
}
use cyrogopus.State.{ServerState, offline, stopping, same}
use cyrogopus.Server.Power.{
  ServerPowerAction, start_action, stop_action, restart_action, kill_action, from_str,
}
use cyrogopus.Websocket.{
  WebsocketJwtPayload, WebsocketEvent, WebsocketMessage, set_state, send_server_logs, send_command,
  send_stats, server_stats, server_console_output,
}
use cyrogopus.Websocket.Session.{first_arg}

-- What a power call returned: success, an error that is a text, or another error.
pub data CallResult : Type 0 where
  succeeded : CallResult
  said : String → CallResult
  unexpected : CallResult

-- What the handler does. A call of a power action says whether it is the one with a kill timeout;
-- a command goes to the console's stdin with a newline; the last two are entries of the activity log.
pub data Action : Type 0 where
  send : WebsocketEvent → List String → Action
  daemon_error : String → Action
  log_daemon_error : String → Action
  call : ServerPowerAction → Bool → Action
  stdin : String → Action
  log_power : ServerPowerAction → Action
  log_command : String → Action

-- What the handler reads of the server and its settings.
pub record View : Type 0 where
  pub state : ServerState
  pub restarting : Bool
  pub auto_kill_enabled : Bool
  pub auto_kill_seconds : ℕ
  pub send_offline_server_logs : Bool
  pub stats : String
  pub logs : Option (List String)
  pub outcome : ServerPowerAction → CallResult
  pub has_stdin : Bool
  pub stdin_taken : Bool

-- The actions, and whether the handler returns without an error.
abbrev pub Reply : Type 0
Reply = List Action × Bool

abbrev auto_kill : View → Bool
auto_kill v = v.auto_kill_enabled && ltb 0 v.auto_kill_seconds

abbrev pub unexpected_error : ServerPowerAction → String
unexpected_error start_action =
    "An unexpected error occurred while starting the server. Please contact an Administrator."
unexpected_error stop_action =
    "An unexpected error occurred while stopping the server. Please contact an Administrator."
unexpected_error restart_action =
    "An unexpected error occurred while restarting the server. Please contact an Administrator."
unexpected_error kill_action =
    "An unexpected error occurred while killing the server. Please contact an Administrator."

unfoldable pub after_start : CallResult → List Action
after_start succeeded = log_power start_action ∷ []
after_start (said message) = daemon_error message ∷ []
after_start unexpected = log_daemon_error (unexpected_error start_action) ∷ []

unfoldable pub after_call : ServerPowerAction → CallResult → List Action
after_call action succeeded = log_power action ∷ []
after_call action (said message) = daemon_error message ∷ []
after_call action unexpected = daemon_error (unexpected_error action) ∷ []

-- A kill's errors are all reported alike.
unfoldable pub after_kill : CallResult → List Action
after_kill succeeded = log_power kill_action ∷ []
after_kill _ = daemon_error (unexpected_error kill_action) ∷ []

-- The four arms for a power action.
unfoldable pub handle_power : View → WebsocketJwtPayload → ServerPowerAction → List Action
unfolding after_start after_call after_kill
handle_power v jwt start_action =
    if not (has_permission jwt.permissions control_start)
    then []
    else if not (same v.state offline)
    then daemon_error "Server is already running or starting." ∷ []
    else call start_action false ∷ after_start (v.outcome start_action)
handle_power v jwt restart_action =
    if not (has_permission jwt.permissions control_restart)
    then []
    else if v.restarting
    then daemon_error "Server is already restarting." ∷ []
    else call restart_action (auto_kill v) ∷ after_call restart_action (v.outcome restart_action)
handle_power v jwt stop_action =
    if not (has_permission jwt.permissions control_stop)
    then []
    else if same v.state offline || same v.state stopping
    then daemon_error "Server is already offline or stopping." ∷ []
    else call stop_action (auto_kill v) ∷ after_call stop_action (v.outcome stop_action)
handle_power v jwt kill_action =
    if not (has_permission jwt.permissions control_stop)
    then []
    else if same v.state offline
    then daemon_error "Server is already offline." ∷ []
    else call kill_action false ∷ after_kill (v.outcome kill_action)

-- The arm for a console command.
unfoldable pub handle_command : View → WebsocketJwtPayload → String → List Action
handle_command v jwt command =
    if not (has_permission jwt.permissions control_console)
    then []
    else if not v.has_stdin
    then []
    else if v.stdin_taken
    then stdin command ∷ log_command command ∷ []
    else stdin command ∷ []

-- `none` where the logs cannot be read, and the trimmed lines otherwise.
unfoldable pub send_lines : Option (List String) → Reply
send_lines none = ([], false)
send_lines (some lines) = (map (λ line. send server_console_output (line ∷ [])) lines, true)

unfoldable pub handle_logs : View → Reply
unfolding send_lines
handle_logs v =
    if not (same v.state offline) || v.send_offline_server_logs
    then send_lines v.logs
    else ([], true)

-- The power action that the argument names, where it names one.
unfoldable pub handle_set_state : View → WebsocketJwtPayload → Option ServerPowerAction → Reply
unfolding handle_power
handle_set_state v jwt none = ([], false)
handle_set_state v jwt (some action) = (handle_power v jwt action, true)

unfoldable pub handle_event : View → WebsocketJwtPayload → WebsocketEvent → List String → Reply
unfolding handle_set_state handle_command handle_logs
handle_event v jwt send_stats args = (send server_stats (v.stats ∷ []) ∷ [], true)
handle_event v jwt send_server_logs args = handle_logs v
handle_event v jwt set_state args = handle_set_state v jwt (from_str (first_arg args))
handle_event v jwt send_command args = (handle_command v jwt (first_arg args), true)
handle_event v jwt _ args = ([], true)

unfoldable pub handle_message : View → WebsocketJwtPayload → WebsocketMessage → Reply
unfolding handle_event
handle_message v jwt m = handle_event v jwt m.event m.args
