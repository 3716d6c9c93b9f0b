-- ===== src/Websocket/Handler/Authority.antt =====
-- application/src/server/websocket/message_handler.rs: the actions of the handler, against the
-- permissions of the token and the state of the server.
use cyrogopus.Prelude.{
  String, Bool, true, false, not, List, [], ◌∷◌, Option, none, some, ◌≡◌, ◌⊎◌, inl, inr, refl,
  arith, ◌||◌, if◌then◌else◌, All, map,
}
use cyrogopus.Permissions.{
  Permission, control_console, control_start, control_stop, control_restart, has_permission,
}
use cyrogopus.State.{offline, stopping, same}
use cyrogopus.Server.Power.{
  ServerPowerAction, start_action, stop_action, restart_action, kill_action, from_str,
}
use cyrogopus.Websocket.{
  WebsocketJwtPayload, WebsocketEvent, WebsocketMessage, set_state, send_server_logs, send_command,
  send_stats, server_console_output,
}
use cyrogopus.Websocket.Session.{first_arg}
use cyrogopus.Websocket.Handler.{
  Action, send, call, stdin, log_power, log_command, View, handle_message, handle_event,
  handle_power, handle_command, handle_logs, CallResult, succeeded, said, unexpected, after_start,
  after_call, after_kill, send_lines, handle_set_state,
}

-- The permission that a power action asks for.
abbrev pub permission_for : ServerPowerAction → Permission
permission_for start_action = control_start
permission_for stop_action = control_stop
permission_for restart_action = control_restart
permission_for kill_action = control_stop

-- An action of the handler that the token's permissions allow, in the state that it is read in. A
-- power action is logged where it succeeded.
abbrev pub IsAllowed : View → WebsocketJwtPayload → Action → Type 0
IsAllowed v jwt (call start_action timed) =
    (has_permission jwt.permissions control_start ≡ true) × (same v.state offline ≡ true)
IsAllowed v jwt (call stop_action timed) =
    (has_permission jwt.permissions control_stop ≡ true)
    × (same v.state offline ≡ false)
    × (same v.state stopping ≡ false)
IsAllowed v jwt (call restart_action timed) =
    (has_permission jwt.permissions control_restart ≡ true) × (v.restarting ≡ false)
IsAllowed v jwt (call kill_action timed) =
    (has_permission jwt.permissions control_stop ≡ true) × (same v.state offline ≡ false)
IsAllowed v jwt (stdin command) = has_permission jwt.permissions control_console ≡ true
IsAllowed v jwt (log_power action) =
    (has_permission jwt.permissions (permission_for action) ≡ true) × (v.outcome action ≡ succeeded)
IsAllowed v jwt (log_command command) =
    (has_permission jwt.permissions control_console ≡ true) × (v.stdin_taken ≡ true)
IsAllowed v jwt _ = Unit

CallResult-cases :
    (r : CallResult) → (r ≡ succeeded) ⊎ (((m : String) × (r ≡ said m)) ⊎ (r ≡ unexpected))
CallResult-cases succeeded = inl refl
CallResult-cases (said m) = inr (inl (m, refl))
CallResult-cases unexpected = inr (inr refl)

-- A list that a guard replaces where it holds.
All-if :
    (P : Action → Type 0) (others taken : List Action) (b : Bool)
    → All P others
    → (b ≡ false → All P taken)
    → All P (if b then others else taken)
All-if P others taken true o t = o
All-if P others taken false o t = t refl

after_start-IsAllowed :
    (v : View) (jwt : WebsocketJwtPayload)
    → has_permission jwt.permissions control_start ≡ true
    → All (IsAllowed v jwt) (after_start (v.outcome start_action))
unfolding after_start
after_start-IsAllowed v jwt held = elim (CallResult-cases (v.outcome start_action)) [
  | inl e ↦ rw e ((held, e), tt)
  | inr (inl (m, e)) ↦ rw e (tt, tt)
  | inr (inr e) ↦ rw e (tt, tt)
]

after_call-IsAllowed :
    (v : View) (jwt : WebsocketJwtPayload) (action : ServerPowerAction)
    → has_permission jwt.permissions (permission_for action) ≡ true
    → All (IsAllowed v jwt) (after_call action (v.outcome action))
unfolding after_call
after_call-IsAllowed v jwt action held = elim (CallResult-cases (v.outcome action)) [
  | inl e ↦ rw e ((held, e), tt)
  | inr (inl (m, e)) ↦ rw e (tt, tt)
  | inr (inr e) ↦ rw e (tt, tt)
]

or-left : (b c : Bool) → (b || c) ≡ false → b ≡ false
or-left b c e = ground (arith, e)

or-right : (b c : Bool) → (b || c) ≡ false → c ≡ false
or-right b c e = ground (arith, e)

after_kill-IsAllowed :
    (v : View) (jwt : WebsocketJwtPayload)
    → has_permission jwt.permissions control_stop ≡ true
    → All (IsAllowed v jwt) (after_kill (v.outcome kill_action))
unfolding after_kill
after_kill-IsAllowed v jwt held = elim (CallResult-cases (v.outcome kill_action)) [
  | inl e ↦ rw e ((held, e), tt)
  | inr (inl (m, e)) ↦ rw e (tt, tt)
  | inr (inr e) ↦ rw e (tt, tt)
]

not-false : (b : Bool) → not b ≡ false → b ≡ true
not-false b e = ground (arith, e)

handle_power-IsAllowed :
    (v : View) (jwt : WebsocketJwtPayload) (action : ServerPowerAction)
    → All (IsAllowed v jwt) (handle_power v jwt action)
unfolding handle_power
handle_power-IsAllowed v jwt start_action =
    All-if _ _ _ (not (has_permission jwt.permissions control_start)) tt (λ p.
      All-if _ _ _ (not (same v.state offline)) (tt, tt)
        (λ q. ((not-false _ p, not-false _ q), after_start-IsAllowed v jwt (not-false _ p))))
handle_power-IsAllowed v jwt restart_action =
    All-if _ _ _ (not (has_permission jwt.permissions control_restart)) tt (λ p.
      All-if _ _ _ v.restarting (tt, tt)
        (λ q. ((not-false _ p, q), after_call-IsAllowed v jwt restart_action (not-false _ p))))
handle_power-IsAllowed v jwt stop_action =
    All-if _ _ _ (not (has_permission jwt.permissions control_stop)) tt (λ p.
      All-if _ _ _ (same v.state offline || same v.state stopping) (tt, tt)
        (λ q. (
          (not-false _ p, or-left _ _ q, or-right _ _ q),
          after_call-IsAllowed v jwt stop_action (not-false _ p),
        )))
handle_power-IsAllowed v jwt kill_action =
    All-if _ _ _ (not (has_permission jwt.permissions control_stop)) tt (λ p.
      All-if _ _ _ (same v.state offline) (tt, tt)
        (λ q. ((not-false _ p, q), after_kill-IsAllowed v jwt (not-false _ p))))

taken-IsAllowed :
    (v : View) (jwt : WebsocketJwtPayload) (command : String) (taken : Bool)
    → has_permission jwt.permissions control_console ≡ true
    → v.stdin_taken ≡ taken
    → All
        (IsAllowed v jwt)
        (if taken then stdin command ∷ log_command command ∷ [] else stdin command ∷ [])
taken-IsAllowed v jwt command true held e = (held, ((held, e), tt))
taken-IsAllowed v jwt command false held e = (held, tt)

handle_command-IsAllowed :
    (v : View) (jwt : WebsocketJwtPayload) (command : String)
    → All (IsAllowed v jwt) (handle_command v jwt command)
unfolding handle_command
handle_command-IsAllowed v jwt command =
    All-if _ _ _ (not (has_permission jwt.permissions control_console)) tt (λ p.
      All-if _ _ _ (not v.has_stdin) tt (λ _. taken-IsAllowed v jwt command _ (not-false _ p) refl))

sends-IsAllowed :
    (v : View) (jwt : WebsocketJwtPayload) (event : WebsocketEvent) (lines : List String)
    → All (IsAllowed v jwt) (map (λ line. send event (line ∷ [])) lines)
sends-IsAllowed v jwt event [] = tt
sends-IsAllowed v jwt event (line ∷ lines) = (tt, sends-IsAllowed v jwt event lines)

send_lines-IsAllowed :
    (v : View) (jwt : WebsocketJwtPayload) (logs : Option (List String))
    → All (IsAllowed v jwt) ((send_lines logs).0)
unfolding send_lines
send_lines-IsAllowed v jwt none = tt
send_lines-IsAllowed v jwt (some lines) = sends-IsAllowed v jwt server_console_output lines

handle_logs-IsAllowed :
    (v : View) (jwt : WebsocketJwtPayload) → All (IsAllowed v jwt) ((handle_logs v).0)
unfolding handle_logs
handle_logs-IsAllowed v jwt =
    elim (not (same v.state offline) || v.send_offline_server_logs)
      as (λ b. All (IsAllowed v jwt) ((if b then send_lines v.logs else ([], true)).0)) [
        | true ↦ send_lines-IsAllowed v jwt v.logs
        | false ↦ tt
      ]

handle_set_state-IsAllowed :
    (v : View) (jwt : WebsocketJwtPayload) (action : Option ServerPowerAction)
    → All (IsAllowed v jwt) ((handle_set_state v jwt action).0)
unfolding handle_set_state
handle_set_state-IsAllowed v jwt none = tt
handle_set_state-IsAllowed v jwt (some action) = handle_power-IsAllowed v jwt action

handle_event-IsAllowed :
    (v : View) (jwt : WebsocketJwtPayload) (event : WebsocketEvent) (args : List String)
    → All (IsAllowed v jwt) ((handle_event v jwt event args).0)
unfolding handle_event
handle_event-IsAllowed v jwt send_stats args = (tt, tt)
handle_event-IsAllowed v jwt send_server_logs args = handle_logs-IsAllowed v jwt
handle_event-IsAllowed v jwt set_state args =
    handle_set_state-IsAllowed v jwt (from_str (first_arg args))
handle_event-IsAllowed v jwt send_command args = handle_command-IsAllowed v jwt (first_arg args)
handle_event-IsAllowed v jwt _ args = tt

-- Whatever a message asks for: each action of its handler is one that the token's permissions and
-- the state of the server allow. A start is called with the permission to start and an offline
-- server, a stop with the one to stop and a server neither offline nor stopping, a kill with the
-- one to stop and a server not offline, a restart with the one to restart and none under way; only
-- the console's permission reaches the console; and only a power action that succeeded, or a
-- command that the console took, is logged.
pub handle_message-IsAllowed :
    (v : View) (jwt : WebsocketJwtPayload) (m : WebsocketMessage)
    → All (IsAllowed v jwt) ((handle_message v jwt m).0)
unfolding handle_message
handle_message-IsAllowed v jwt m = handle_event-IsAllowed v jwt m.event m.args
