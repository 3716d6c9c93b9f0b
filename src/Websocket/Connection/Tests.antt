-- ===== src/Websocket/Connection/Tests.antt =====
-- Two messages on the channel, for a token that may read schedules.
use cyrogopus.Prelude.{List, [], ◌∷◌, Option, none, some, ◌≡◌}
use cyrogopus.Permissions.{schedule_read}
use cyrogopus.Websocket.{
  WebsocketJwtPayload, WebsocketEvent, server_schedule_status, server_backup_progress,
}
use cyrogopus.Websocket.Connection.{Received, received, lagged, listen, pending, keep, listen-keep}

abbrev jwt : WebsocketJwtPayload
jwt = record {
  base = record { expiration_time = none; not_before = none; issued_at = none; jwt_id = "id" };
  user_uuid = 1;
  server_uuid = 7;
  permissions = schedule_read ∷ [];
}

abbrev told : WebsocketEvent → Received
told e = received (record { event = e; args = [] })

abbrev channel : List (Option WebsocketJwtPayload × Received)
channel =
    (none, told server_schedule_status)
    ∷ (some jwt, told server_schedule_status)
    ∷ (some jwt, lagged)
    ∷ (some jwt, told server_backup_progress)
    ∷ []

listen-keep_example : listen channel ≡ keep (pending channel)
listen-keep_example = listen-keep channel
