-- ===== src/Permissions/Names.antt =====
-- application/src/server/permissions.rs: the JSON names of the permissions, which are the `serde`
-- renames and aliases of the enum, and the visitor that reads a list of permissions and drops what
-- it does not know.
use cyrogopus.Prelude.{
  String, Bool, true, false, List, [], ◌∷◌, ◌≡◌, refl, arith, ap, sym, ◌∙◌, Bool-cases, inl, inr,
  Option, none, some, str_eq, map, if◌then◌else◌, ◌||◌,
}
use mathlib.Core.Path.{ap₂}
use cyrogopus.Permissions.{
  Permission, all_permissions, websocket_connect, control_console, control_start, control_stop,
  control_restart, admin_websocket_errors, admin_websocket_install, admin_websocket_transfer,
  backup_read, schedule_read, file_read, file_read_content, file_create, file_update, file_delete,
  file_archive, has_permission, same, tag,
}
use cyrogopus.Permissions.Grants.{contains, has_permission-eq-contains}

unfoldable pub name : Permission → String
name all_permissions = "*"
name websocket_connect = "websocket.connect"
name control_console = "control.console"
name control_start = "control.start"
name control_stop = "control.stop"
name control_restart = "control.restart"
name admin_websocket_errors = "admin.websocket.errors"
name admin_websocket_install = "admin.websocket.install"
name admin_websocket_transfer = "admin.websocket.transfer"
name backup_read = "backup.read"
name schedule_read = "schedule.read"
name file_read = "file.read"
name file_read_content = "file.read-content"
name file_create = "file.create"
name file_update = "file.update"
name file_delete = "file.delete"
name file_archive = "file.archive"

-- The names and aliases that are read, in the order of the enum.
abbrev names : List (String × Permission)
names =
    ("*", all_permissions)
    ∷ ("websocket.connect", websocket_connect)
    ∷ ("control.console", control_console)
    ∷ ("control.start", control_start)
    ∷ ("control.stop", control_stop)
    ∷ ("control.restart", control_restart)
    ∷ ("admin.websocket.errors", admin_websocket_errors)
    ∷ ("admin.websocket.install", admin_websocket_install)
    ∷ ("admin.websocket.transfer", admin_websocket_transfer)
    ∷ ("backup.read", backup_read)
    ∷ ("backups.read", backup_read)
    ∷ ("schedule.read", schedule_read)
    ∷ ("schedules.read", schedule_read)
    ∷ ("file.read", file_read)
    ∷ ("files.read", file_read)
    ∷ ("file.read-content", file_read_content)
    ∷ ("files.read-content", file_read_content)
    ∷ ("file.create", file_create)
    ∷ ("files.create", file_create)
    ∷ ("file.update", file_update)
    ∷ ("files.update", file_update)
    ∷ ("file.delete", file_delete)
    ∷ ("files.delete", file_delete)
    ∷ ("file.archive", file_archive)
    ∷ ("files.archive", file_archive)
    ∷ []

find : String → List (String × Permission) → Option Permission
find s [] = none
find s ((n, p) ∷ rest) = if str_eq s n then some p else find s rest

unfoldable pub from_name : String → Option Permission
unfolding find
from_name s = find s names

-- `HashSet::insert`.
abbrev pub insert : Permission → List Permission → List Permission
insert p ps = if contains ps p then ps else p ∷ ps

abbrev keep : Option Permission → List Permission → List Permission
keep none ps = ps
keep (some p) ps = insert p ps

abbrev read_one : Option String → Option Permission
read_one none = none
read_one (some s) = from_name s

-- `visit_seq` on the elements that were read: `none` stands for a JSON value that is no string.
visit_from : List Permission → List (Option String) → List Permission
visit_from ps [] = ps
visit_from ps (e ∷ es) = visit_from (keep (read_one e) ps) es

unfoldable pub visit_seq : List (Option String) → List Permission
unfolding visit_from
visit_seq es = visit_from [] es

from_name-name : (p : Permission) → from_name (name p) ≡ some p
unfolding from_name name
from_name-name all_permissions = refl
from_name-name _ = refl

or_none : (a : Bool) → a ≡ (a || false)
or_none true = refl
or_none false = refl

contains-tag :
    (p q : Permission) (ps : List Permission) → tag p ≡ tag q → contains ps p ≡ contains ps q
contains-tag p q [] e = refl
contains-tag p q (x ∷ ps) e = rw e (rw (contains-tag p q ps e) refl)

same-tag : (p q : Permission) → same p q ≡ true → tag p ≡ tag q
same-tag p q h = ground arith

or_held : (held new : Bool) → (new ≡ true → held ≡ true) → held ≡ (new || held)
or_held true true h = refl
or_held true false h = refl
or_held false true h = h refl
or_held false false h = refl

contains-insert :
    (p q : Permission) (ps : List Permission)
    → contains (insert p ps) q ≡ (same q p || contains ps q)
contains-insert p q ps = elim (Bool-cases (contains ps p)) [
  | inl old ↦
      rw old (or_held (contains ps q) (same q p) (λ h. contains-tag q p ps (same-tag q p h) ∙ old))
  | inr new ↦ rw new refl
]

keep-name :
    (p : Permission) (ps : List Permission) → keep (read_one (some (name p))) ps ≡ insert p ps
keep-name p ps = rw (from_name-name p) refl

or_shuffle : (a b c : Bool) → ((b || a) || c) ≡ (a || (b || c))
or_shuffle true true c = refl
or_shuffle true false c = refl
or_shuffle false true c = refl
or_shuffle false false c = refl

visit_from-names :
    (acc ps : List Permission) (q : Permission)
    → contains (visit_from acc (map (λ p. some (name p)) ps)) q ≡ (contains acc q || contains ps q)
unfolding visit_from
visit_from-names acc [] q = or_none (contains acc q)
visit_from-names acc (p ∷ ps) q =
    ap (λ a. contains (visit_from a (map (λ r. some (name r)) ps)) q) (keep-name p acc)
    ∙ (visit_from-names (insert p acc) ps q
        ∙ (ap (λ b. b || contains ps q) (contains-insert p q acc)
            ∙ or_shuffle (contains acc q) (same q p) (contains ps q)))

-- A list of permissions that is written by its names and read back grants what it granted.
has_permission-visit_seq :
    (ps : List Permission) (q : Permission)
    → has_permission (visit_seq (map (λ p. some (name p)) ps)) q ≡ has_permission ps q
unfolding visit_seq
has_permission-visit_seq ps q =
    has_permission-eq-contains (visit_from [] (map (λ p. some (name p)) ps)) q
    ∙ (ap₂ ◌||◌ (visit_from-names [] ps q) (visit_from-names [] ps all_permissions)
        ∙ sym (has_permission-eq-contains ps q))
