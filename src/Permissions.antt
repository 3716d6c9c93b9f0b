-- ===== src/Permissions.antt =====
-- application/src/server/permissions.rs: the permissions of a user, their names in JSON, and the map
-- of the users that a server knows. A `HashSet` and a `HashMap` are lists. A user's ignored files
-- are an opaque value of a type `Override`, and times are seconds.
pub mod Names
pub mod Grants
pub mod Users
mod Tests
use cyrogopus.Prelude.{
  ℕ, ◌-◌, ◌*◌, String, Bool, true, false, not, List, [], ◌∷◌, Option, none, some, ◌&&◌, ◌||◌, ltb,
  ◌==◌, if◌then◌else◌,
}

pub data Permission : Type 0 where
  all_permissions : Permission
  websocket_connect control_console control_start control_stop control_restart : Permission
  admin_websocket_errors admin_websocket_install admin_websocket_transfer : Permission
  backup_read schedule_read : Permission
  file_read file_read_content file_create file_update file_delete file_archive : Permission

pub Permission-discrete : Discrete Permission
Permission-discrete = hlevel

-- The derived `==`, through a number for each constructor.
abbrev pub tag : Permission → ℕ
tag all_permissions = 0
tag websocket_connect = 1
tag control_console = 2
tag control_start = 3
tag control_stop = 4
tag control_restart = 5
tag admin_websocket_errors = 6
tag admin_websocket_install = 7
tag admin_websocket_transfer = 8
tag backup_read = 9
tag schedule_read = 10
tag file_read = 11
tag file_read_content = 12
tag file_create = 13
tag file_update = 14
tag file_delete = 15
tag file_archive = 16

abbrev pub same : Permission → Permission → Bool
same p q = tag p == tag q

unfoldable pub is_admin : Permission → Bool
is_admin admin_websocket_errors = true
is_admin admin_websocket_install = true
is_admin admin_websocket_transfer = true
is_admin _ = false

-- The source's rule: `self == other || (other == All && !other.is_admin())`.
unfoldable pub matches : Permission → Permission → Bool
unfolding is_admin
matches self other = same self other || (same other all_permissions && not (is_admin other))

unfoldable pub has_permission : List Permission → Permission → Bool
unfolding matches
has_permission [] permission = false
has_permission (p ∷ ps) permission = matches permission p || has_permission ps permission
