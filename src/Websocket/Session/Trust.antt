-- ===== src/Websocket/Session/Trust.antt =====
-- application/src/server/websocket/jwt.rs: which tokens a socket comes to hold, and which messages
-- it lets through.
use cyrogopus.Prelude.{
  ℕ, String, true, List, [], ◌∷◌, Option, none, some, ◌≡◌, sym, ◌∙◌, arith, ◌⊎◌, ◌↔◌, ◌==◌,
  Option-cases, inl, inr, Bool-cases,
}
use mathlib.Core.Path.{subst}
use cyrogopus.Permissions.{websocket_connect, has_permission}
use cyrogopus.Jwt.{JwtClient, DateTime, validate}
use cyrogopus.Websocket.{WebsocketJwtPayload, WebsocketMessage}
use cyrogopus.Websocket.Session.{
  Socket, Frame, text, other, pass, handle_jwt, authenticate, listen_jwt, is_authentication,
  first_arg,
}

module _ (verify : String → Option WebsocketJwtPayload) (client : JwtClient) (server_uuid : ℕ)
    (server_state : String) where
  authenticate-pass :
      (s : Socket) (jwt : WebsocketJwtPayload) (now : DateTime)
      (x : WebsocketMessage × WebsocketJwtPayload)
      → ¬ ((authenticate verify client server_uuid server_state s jwt now).1 ≡ pass (some x))
  unfolding authenticate
  authenticate-pass s jwt now x h = ground arith

  -- A message is let through only where the socket holds a token that validates now and allows the
  -- connection, and it comes with that token; the socket is as before.
  pub handle_jwt-pass :
      (s : Socket) (frame : Frame) (now : DateTime) (m : WebsocketMessage)
      (jwt : WebsocketJwtPayload)
      → (handle_jwt verify client server_uuid server_state s frame now).1 ≡ pass (some (m, jwt))
      → (s.socket_jwt ≡ some jwt)
        × (frame ≡ text (some m))
        × (validate jwt.base client now ≡ true)
        × (has_permission jwt.permissions websocket_connect ≡ true)
        × ((handle_jwt verify client server_uuid server_state s frame now).0 ≡ s)
  unfolding handle_jwt
  handle_jwt-pass s other now m jwt h = ground arith
  handle_jwt-pass s (text none) now m jwt h = ground arith
  handle_jwt-pass s (text (some message)) now m jwt h =
      elim (Bool-cases (is_authentication message.event)) [
        | inl e ↦ elim (Option-cases (verify (first_arg message.args))) [
          | inl v ↦ absurd (ground (arith, e, v))
          | inr (t, v) ↦ absurd (ground (arith, e, v, authenticate-pass s t now (m, jwt)))
        ]
        | inr e ↦ elim (Option-cases s.socket_jwt) [
          | inl v ↦ absurd (ground (arith, e, v))
          | inr (t, v) ↦ ground (arith, e, v)
        ]
      ]

  -- A socket without a token takes one exactly from an authentication message whose token the
  -- signature check accepts, that validates now, allows the connection, and is for this server.
  handle_jwt-takes_iff :
      (sent : List WebsocketMessage) (m : WebsocketMessage) (now : DateTime)
      (jwt : WebsocketJwtPayload)
      → let s : Socket = record { socket_jwt = none; sent = sent } in
        ((handle_jwt verify client server_uuid server_state s (text (some m)) now).0.socket_jwt
          ≡ some jwt)
        ↔ ((is_authentication m.event ≡ true)
            × (verify (first_arg m.args) ≡ some jwt)
            × (validate jwt.base client now ≡ true)
            × (has_permission jwt.permissions websocket_connect ≡ true)
            × ((jwt.server_uuid == server_uuid) ≡ true))
  unfolding handle_jwt authenticate
  handle_jwt-takes_iff sent m now jwt = elim (Option-cases (verify (first_arg m.args))) [
    | inl v ↦ (ground (arith, v), ground (arith, v))
    | inr (t, v) ↦ (ground (arith, v), ground (arith, v))
  ]

  -- A token that was good for this socket when it was taken.
  pub record IsTrusted (jwt : WebsocketJwtPayload) : Type 0 where
    pub token : String
    pub since : DateTime
    pub verified : verify token ≡ some jwt
    pub valid : validate jwt.base client since ≡ true
    pub connects : has_permission jwt.permissions websocket_connect ≡ true
    pub for_server : jwt.server_uuid ≡ server_uuid

  abbrev pub Trusts : Socket → Type 0
  Trusts s = (jwt : WebsocketJwtPayload) → s.socket_jwt ≡ some jwt → IsTrusted jwt

  authenticate-cases :
      (s : Socket) (jwt : WebsocketJwtPayload) (now : DateTime)
      → (((authenticate verify client server_uuid server_state s jwt now).0.socket_jwt
          ≡ s.socket_jwt))
        ⊎ (((authenticate verify client server_uuid server_state s jwt now).0.socket_jwt ≡ some jwt)
            × (validate jwt.base client now ≡ true)
            × (has_permission jwt.permissions websocket_connect ≡ true)
            × (jwt.server_uuid ≡ server_uuid))
  unfolding authenticate
  authenticate-cases s jwt now = ground arith

  take-IsTrusted :
      (s : Socket) (message : WebsocketMessage) (jwt : WebsocketJwtPayload) (now : DateTime)
      → verify (first_arg message.args) ≡ some jwt
      → Trusts s
      → Trusts (authenticate verify client server_uuid server_state s jwt now).0
  take-IsTrusted s message jwt now v h held e = elim (authenticate-cases s jwt now) [
    | inl same ↦ h held (sym same ∙ e)
    | inr new ↦
        let is_jwt : jwt ≡ held = cc in
        subst IsTrusted is_jwt (record {
          token = first_arg message.args;
          since = now;
          verified = v;
          valid = new.1;
          connects = new.2;
          for_server = new.3;
        })
  ]

  handle_jwt-Trusts :
      (s : Socket) (frame : Frame) (now : DateTime)
      → Trusts s
      → Trusts (handle_jwt verify client server_uuid server_state s frame now).0
  unfolding handle_jwt
  handle_jwt-Trusts s other now h = h
  handle_jwt-Trusts s (text none) now h = h
  handle_jwt-Trusts s (text (some message)) now h =
      elim (Bool-cases (is_authentication message.event)) [
        | inl e ↦ elim (Option-cases (verify (first_arg message.args))) [
          | inl v ↦ rw (e, v) h
          | inr (t, v) ↦ rw (e, v) (take-IsTrusted s message t now v h)
        ]
        | inr e ↦ λ held q. h held (ground (arith, e, q))
      ]

  -- What reaches a socket: a frame, or a round of the expiry check.
  pub data Input : Type 0 where
    frame_at : Frame → DateTime → Input
    tick_at : DateTime → Input

  unfoldable pub run : Socket → List Input → Socket
  run s [] = s
  run s (frame_at frame now ∷ is) =
      run (handle_jwt verify client server_uuid server_state s frame now).0 is
  run s (tick_at now ∷ is) = run (listen_jwt s now) is

  listen_jwt-Trusts : (s : Socket) (now : DateTime) → Trusts s → Trusts (listen_jwt s now)
  unfolding listen_jwt
  listen_jwt-Trusts s now h held q = h held (ground (arith, q))

  run-from : (s : Socket) (inputs : List Input) → Trusts s → Trusts (run s inputs)
  unfolding run
  run-from s [] h = h
  run-from s (frame_at frame now ∷ is) h =
      run-from (handle_jwt verify client server_uuid server_state s frame now).0 is
        (handle_jwt-Trusts s frame now h)
  run-from s (tick_at now ∷ is) h = run-from (listen_jwt s now) is (listen_jwt-Trusts s now h)

  -- From a socket without a token on, whatever comes over it: a token that the socket holds came
  -- from a text that the signature check accepted, validated at a time, allows the connection, and
  -- is for this server.
  pub run-IsTrusted :
      (sent : List WebsocketMessage) (inputs : List Input) (jwt : WebsocketJwtPayload)
      → (run (record { socket_jwt = none; sent = sent }) inputs).socket_jwt ≡ some jwt
      → IsTrusted jwt
  run-IsTrusted sent inputs jwt h =
      run-from (record { socket_jwt = none; sent = sent }) inputs
        (λ held q. absurd (ground (arith, q))) jwt h
