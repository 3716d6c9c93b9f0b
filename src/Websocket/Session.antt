-- ===== src/Websocket/Session.antt =====
-- application/src/server/websocket/jwt.rs: the token that a socket holds. The signature check of a
-- token is a parameter, `none` for a token that does not verify.
pub mod Trust
use cyrogopus.Prelude.{
  ℕ, String, Bool, true, false, not, List, [], ◌∷◌, ◌++◌, Option, none, some, ◌&&◌, ◌||◌, ◌==◌, map,
  if◌then◌else◌, is_some,
}
use cyrogopus.Prelude.Int.{ℤ, pos, ltb_ℤ, negsuc}
use cyrogopus.Prelude.Words.{add_i64}
use cyrogopus.Permissions.{Permission, websocket_connect, has_permission}
use cyrogopus.Permissions.Names.{name}
use cyrogopus.Jwt.{JwtClient, DateTime, validate, timestamp}
use cyrogopus.Websocket.{
  WebsocketJwtPayload, WebsocketEvent, WebsocketMessage, authentication, authentication_success,
  server_status, token_expired, token_expiring,
}

-- What comes over the socket: a text, parsed (`none` where it is no message), or another frame.
pub data Frame : Type 0 where
  text : Option WebsocketMessage → Frame
  other : Frame

pub data JwtResult : Type 0 where
  pass : Option (WebsocketMessage × WebsocketJwtPayload) → JwtResult
  close_socket : JwtResult
  misc : JwtResult

-- The token that the socket holds, and the messages sent over it.
pub record Socket : Type 0 where
  pub socket_jwt : Option WebsocketJwtPayload
  pub sent : List WebsocketMessage

abbrev pub send : Socket → WebsocketEvent → List String → Socket
send s event args = record s { sent = s.sent ++ record { event = event; args = args } ∷ [] }

abbrev pub first_arg : List String → String
first_arg [] = ""
first_arg (a ∷ args) = a

abbrev pub is_authentication : WebsocketEvent → Bool
is_authentication authentication = true
is_authentication _ = false

module _ (verify : String → Option WebsocketJwtPayload) (client : JwtClient) (server_uuid : ℕ)
    (server_state : String) where
  -- The branch for a token that verifies.
  unfoldable pub authenticate : Socket → WebsocketJwtPayload → DateTime → Socket × JwtResult
  authenticate s jwt now =
      if not (validate jwt.base client now)
        || (not (has_permission jwt.permissions websocket_connect)
            || not (jwt.server_uuid == server_uuid))
      then (if has_permission jwt.permissions websocket_connect
          then (send s token_expired [], misc)
          else (s, close_socket))
      else (let greeted = send s authentication_success (map name jwt.permissions) in
          let trusted = record greeted { socket_jwt = some jwt } in
          if is_some s.socket_jwt
          then (trusted, pass none)
          else (send trusted server_status (server_state ∷ []), pass none))

  unfoldable pub handle_jwt : Socket → Frame → DateTime → Socket × JwtResult
  handle_jwt s other now = (s, misc)
  handle_jwt s (text none) now = (s, misc)
  handle_jwt s (text (some message)) now =
      if is_authentication message.event
      then (elim (verify (first_arg message.args)) [
        | none ↦ (s, close_socket)
        | some jwt ↦ authenticate s jwt now
      ])
      else (elim (s.socket_jwt) [
        | none ↦ (s, close_socket)
        | some jwt ↦
            if not (validate jwt.base client now)
              || not (has_permission jwt.permissions websocket_connect)
            then (s, close_socket)
            else (s, pass (some (message, jwt)))
      ])

abbrev expiry : Option WebsocketJwtPayload → Option ℤ
expiry none = none
expiry (some jwt) = jwt.base.expiration_time

-- One round of `listen_jwt`, thirty seconds after the one before. `expiration - 60` wraps.
unfoldable pub listen_jwt : Socket → DateTime → Socket
listen_jwt s now = elim (expiry s.socket_jwt) [
  | none ↦ s
  | some expiration ↦
      if ltb_ℤ expiration (timestamp now)
      then record (send s token_expired []) { socket_jwt = none }
      else if ltb_ℤ (add_i64 expiration (negsuc 59)) (timestamp now)
      then send s token_expiring []
      else s
]
