-- ===== src/Websocket/Tests.antt =====
-- Runs of a socket whose one good token is "token".
use cyrogopus.Prelude.{
  ◌*◌, ◌^◌, String, true, false, List, [], ◌∷◌, Option, none, some, ◌≡◌, refl, str_eq,
  if◌then◌else◌, All,
}
use cyrogopus.Prelude.Int.{pos}
use cyrogopus.Permissions.{websocket_connect, control_start, has_permission}
use cyrogopus.Jwt.{JwtClient, DateTime, validate, get}
use cyrogopus.State.{offline}
use cyrogopus.Websocket.{WebsocketJwtPayload, WebsocketMessage, authentication, set_state}
use cyrogopus.Websocket.Session.{Socket, text, handle_jwt, authenticate, listen_jwt}
use cyrogopus.Websocket.Session.Trust.{
  Input, frame_at, tick_at, run, IsTrusted, handle_jwt-pass, run-IsTrusted,
}
use cyrogopus.Websocket.Handler.{View, succeeded, handle_message}
use cyrogopus.Websocket.Handler.Authority.{IsAllowed, handle_message-IsAllowed}

abbrev client : JwtClient
client = record { boot_time = 0; denied_jtokens = []; seen_jtoken_ids = [] }

abbrev jwt : WebsocketJwtPayload
jwt = record {
  base = record {
    expiration_time = some (pos 600);
    not_before = none;
    issued_at = some (pos 10);
    jwt_id = "id";
  };
  user_uuid = 1;
  server_uuid = 7;
  permissions = websocket_connect ∷ control_start ∷ [];
}

verify : String → Option WebsocketJwtPayload
verify token = if str_eq token "token" then some jwt else none

abbrev login : WebsocketMessage
login = record { event = authentication; args = "token" ∷ [] }

abbrev power : WebsocketMessage
power = record { event = set_state; args = "start" ∷ [] }

abbrev later : DateTime
later = 60 * 10 ^ 9

abbrev logged_in : Socket
logged_in = record { socket_jwt = some jwt; sent = [] }

handle_jwt-pass_example :
    (logged_in.socket_jwt ≡ some jwt)
    × (text (some power) ≡ text (some power))
    × (validate jwt.base client later ≡ true)
    × (has_permission jwt.permissions websocket_connect ≡ true)
    × ((handle_jwt verify client 7 "offline" logged_in (text (some power)) later).0 ≡ logged_in)
unfolding handle_jwt validate has_permission get
handle_jwt-pass_example =
    handle_jwt-pass verify client 7 "offline" logged_in (text (some power)) later power jwt refl

abbrev inputs : List (Input verify client 7 "offline")
inputs =
    frame_at (text (some power)) later
    ∷ frame_at (text (some login)) later
    ∷ tick_at later
    ∷ frame_at (text (some power)) later
    ∷ []

run-IsTrusted_example : IsTrusted verify client 7 "offline" jwt
unfolding run handle_jwt authenticate validate has_permission get verify listen_jwt
run-IsTrusted_example = run-IsTrusted verify client 7 "offline" [] inputs jwt refl

abbrev view : View
view = record {
  state = offline;
  restarting = false;
  auto_kill_enabled = true;
  auto_kill_seconds = 30;
  send_offline_server_logs = false;
  stats = "";
  logs = none;
  outcome = λ action. succeeded;
  has_stdin = false;
  stdin_taken = false;
}

handle_message-IsAllowed_example : All (IsAllowed view jwt) (handle_message view jwt power).0
handle_message-IsAllowed_example = handle_message-IsAllowed view jwt power
