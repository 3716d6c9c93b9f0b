-- ===== src/Permissions/Tests.antt =====
-- Runs on small sets of permissions and users.
use cyrogopus.Prelude.{String, Bool, false, List, [], ◌∷◌, none}
use cyrogopus.Permissions.{Permission, all_permissions, control_stop}
use cyrogopus.Permissions.Users.{UserPermissionsMap}

abbrev granted : List Permission
granted = control_stop ∷ all_permissions ∷ []

-- An override is the one path that it ignores.
abbrev ignores : String → String → Bool → Bool
ignores o path is_dir = false

abbrev users : UserPermissionsMap String ignores
users = (5, record { permissions = granted; ignored = none; last_access = 3 }) ∷ []
