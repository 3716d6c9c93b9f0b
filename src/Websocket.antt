-- ===== src/Websocket.antt =====
-- application/src/server/websocket: the messages of a server's websocket and the payload of its
-- tokens. A uuid is a number.
pub mod Session
pub mod Handler
pub mod Connection
mod Tests
use cyrogopus.Prelude.{ℕ, String, List}
use cyrogopus.Jwt.{BasePayload}
use cyrogopus.Permissions.{Permission}

pub record WebsocketJwtPayload : Type 0 where
  pub base : BasePayload
  pub user_uuid : ℕ
  pub server_uuid : ℕ
  pub permissions : List Permission

pub data WebsocketEvent : Type 0 where
  authentication_success token_expiring token_expired authentication : WebsocketEvent
  set_state send_server_logs send_command send_stats : WebsocketEvent
  error jwt_error : WebsocketEvent
  server_stats server_status server_console_output server_install_output : WebsocketEvent
  server_image_pull_progress server_image_pull_completed : WebsocketEvent
  server_install_started server_install_completed server_daemon_message : WebsocketEvent
  server_backup_progress server_backup_completed : WebsocketEvent
  server_backup_restore_progress server_backup_restore_completed : WebsocketEvent
  server_transfer_logs server_transfer_status : WebsocketEvent
  server_schedule_status server_schedule_step_error : WebsocketEvent
  server_operation_progress server_operation_completed server_operation_error : WebsocketEvent

pub record WebsocketMessage : Type 0 where
  pub event : WebsocketEvent
  pub args : List String
