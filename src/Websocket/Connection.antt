-- ===== src/Websocket/Connection.antt =====
-- application/src/server/websocket/handler.rs: what the listeners of a connection forward. A message
-- that is sent stands with the token that the listener read for it.
mod Tests
use cyrogopus.Prelude.{
  String, Bool, true, false, not, List, [], ◌∷◌, ◌++◌, Option, none, some, ◌≡◌, refl, arith,
  if◌then◌else◌, Bool-cases, inl, inr,
}
use cyrogopus.Permissions.{
  Permission, has_permission, admin_websocket_install, admin_websocket_transfer, backup_read,
  schedule_read, file_read,
}
use cyrogopus.Jwt.{JwtClient, DateTime, validate}
use cyrogopus.Websocket.{
  WebsocketJwtPayload, WebsocketEvent, WebsocketMessage, server_install_output,
  server_operation_progress, server_operation_completed, server_backup_progress,
  server_backup_completed, server_schedule_status, server_schedule_step_error, server_transfer_logs,
  server_console_output,
}

-- What a broadcast channel gives, with the token of the socket at that time.
pub data Received : Type 0 where
  received : WebsocketMessage → Received
  closed lagged : Received

abbrev pub Sent : Type 0
Sent = WebsocketJwtPayload × WebsocketMessage

-- The match on the event.
unfoldable pub forwards : WebsocketJwtPayload → WebsocketEvent → Bool
forwards jwt server_install_output = has_permission jwt.permissions admin_websocket_install
forwards jwt server_operation_progress = has_permission jwt.permissions file_read
forwards jwt server_operation_completed = has_permission jwt.permissions file_read
forwards jwt server_backup_progress = has_permission jwt.permissions backup_read
forwards jwt server_backup_completed = has_permission jwt.permissions backup_read
forwards jwt server_schedule_status = has_permission jwt.permissions schedule_read
forwards jwt server_schedule_step_error = has_permission jwt.permissions schedule_read
forwards jwt server_transfer_logs = has_permission jwt.permissions admin_websocket_transfer
forwards jwt _ = true

unfoldable pub listen : List (Option WebsocketJwtPayload × Received) → List Sent
listen [] = []
listen ((jwt, closed) ∷ rs) = []
listen ((jwt, lagged) ∷ rs) = listen rs
listen ((none, received m) ∷ rs) = listen rs
listen ((some jwt, received m) ∷ rs) =
    let rest = listen rs in if forwards jwt m.event then (jwt, m) ∷ rest else rest

-- The lines of the console, each with the token and the time; the end of one console is the start of
-- the wait for the next.
pub data Line : Type 0 where
  line : String → Line
  closed_line lagged_line : Line

abbrev console_output : String → WebsocketMessage
console_output text = record { event = server_console_output; args = text ∷ [] }

unfoldable pub listen_stdout :
    JwtClient → List (Option WebsocketJwtPayload × DateTime × Line) → List Sent
listen_stdout client [] = []
listen_stdout client ((jwt, now, closed_line) ∷ rs) = listen_stdout client rs
listen_stdout client ((jwt, now, lagged_line) ∷ rs) = listen_stdout client rs
listen_stdout client ((none, now, line text) ∷ rs) = listen_stdout client rs
listen_stdout client ((some jwt, now, line text) ∷ rs) =
    let rest = listen_stdout client rs in
    if validate jwt.base client now then (jwt, console_output text) ∷ rest else rest

-- The permission that a user needs for an event, where one is asked for.
abbrev pub required : WebsocketEvent → Option Permission
required server_install_output = some admin_websocket_install
required server_transfer_logs = some admin_websocket_transfer
required server_operation_progress = some file_read
required server_operation_completed = some file_read
required server_backup_progress = some backup_read
required server_backup_completed = some backup_read
required server_schedule_status = some schedule_read
required server_schedule_step_error = some schedule_read
required _ = none

abbrev has_required : WebsocketJwtPayload → Option Permission → Bool
has_required jwt none = true
has_required jwt (some p) = has_permission jwt.permissions p

-- The messages that come before the channel is closed, with their tokens.
abbrev pub pending : List (Option WebsocketJwtPayload × Received) → List Sent
pending [] = []
pending ((jwt, closed) ∷ rs) = []
pending ((jwt, lagged) ∷ rs) = pending rs
pending ((none, received m) ∷ rs) = pending rs
pending ((some jwt, received m) ∷ rs) = (jwt, m) ∷ pending rs

abbrev pub is_permitted : Sent → Bool
is_permitted (jwt, m) = has_required jwt (required m.event)

abbrev pub keep : List Sent → List Sent
keep [] = []
keep (s ∷ ss) = let rest = keep ss in if is_permitted s then s ∷ rest else rest

forwards-required :
    (jwt : WebsocketJwtPayload) (e : WebsocketEvent)
    → forwards jwt e ≡ has_required jwt (required e)
unfolding forwards
forwards-required jwt e = ground arith

-- The listener forwards, in order, exactly those messages of the channel that come while the socket
-- has a token and whose event asks for no permission or for one that the token has.
pub listen-keep :
    (rs : List (Option WebsocketJwtPayload × Received)) → listen rs ≡ keep (pending rs)
unfolding listen
listen-keep [] = refl
listen-keep ((jwt, closed) ∷ rs) = refl
listen-keep ((jwt, lagged) ∷ rs) = listen-keep rs
listen-keep ((none, received m) ∷ rs) = listen-keep rs
listen-keep ((some jwt, received m) ∷ rs) =
    ground (arith, forwards-required jwt m.event, listen-keep rs)
