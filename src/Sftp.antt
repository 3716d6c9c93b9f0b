-- ===== src/Sftp.antt =====
-- application/src/ssh/sftp.rs: the session of an SFTP client. A request runs in one view of the
-- server: the locks, the permissions of the user and what the filesystem answers. A handler gives
-- back what it asks of the filesystem, call by call, and its reply. Of the attributes of a file the
-- kind and the length are kept; the name of a handle is the number that it is the hexadecimal of.
pub mod Paths
pub mod Handles
pub mod Files
pub mod Extended
pub mod Requests
pub mod Authority
pub mod Limit
pub mod Hash
pub mod ReadOnly
mod Tests
use cyrogopus.Prelude.{
  ℕ, String, Bool, true, false, not, ◌&&◌, ◌||◌, ◌+◌, Option, none, some, List, [], ◌∷◌, ◌==◌,
  if◌then◌else◌, is_some, length,
}
use cyrogopus.Prelude.Words.{add_u64}
use cyrogopus.Permissions.{Permission}
use cyrogopus.Permissions
use cyrogopus.Activity.{ActivityEvent}
use cyrogopus.Cap.{root_dir, PathBuf}
use cyrogopus.Cap.ReadDir.{Entry}

pub data StatusCode : Type 0 where
  permission_denied failure no_such_file eof op_unsupported bad_message : StatusCode

pub data FileKind : Type 0 where
  regular directory symbolic_link other_kind : FileKind

pub record Metadata : Type 0 where
  pub kind : FileKind
  pub len : ℕ

abbrev pub is_dir : Metadata → Bool
is_dir m = elim (m.kind) [ directory ↦ true | _ ↦ false ]

abbrev pub is_file : Metadata → Bool
is_file m = elim (m.kind) [ regular ↦ true | _ ↦ false ]

pub record OpenFlags : Type 0 where
  pub read_flag : Bool
  pub write_flag : Bool
  pub append_flag : Bool
  pub create_flag : Bool
  pub truncate_flag : Bool

-- The calls that a handler makes. `allocate` charges bytes to a directory.
pub data Effect : Type 0 where
  read_dir_of truncate_path create_dir chown_path read_file sync_all read_at : PathBuf → Effect
  set_permissions set_symlink_permissions : PathBuf → ℕ → Effect
  rename_path symlink hard_link copy : PathBuf → PathBuf → Effect
  open_with : PathBuf → OpenFlags → Effect
  allocate : PathBuf → ℕ → Effect
  write_at : PathBuf → ℕ → ℕ → Effect
  log_activity : ActivityEvent → PathBuf → Effect

pub data Reply : Type 0 where
  done : Reply
  opened : ℕ → Reply
  names : List PathBuf → Reply
  attributes : Metadata → Reply
  bytes_read : ℕ → Reply
  space : ℕ → ℕ → Reply
  limits : ℕ → ℕ → ℕ → ℕ → Reply
  hashed : List ℕ → Reply
  error : StatusCode → Reply

abbrev pub Out : Type 0
Out = List Effect × Reply

-- `permissions` is the user's entry in the map of the server's users, where there is one;
-- `files_ignored` is the filesystem's `is_ignored`, and `nil_ignored` that of the map of users for
-- the nil uuid. `succeeds` says whether a call does.
pub record View : Type 0 where
  pub locked : Bool
  pub read_only : Bool
  pub permissions : Option (List Permission)
  pub files_ignored : PathBuf → Bool → Bool
  pub nil_ignored : PathBuf → Bool → Bool
  pub canonicalize : PathBuf → Option PathBuf
  pub read_link : PathBuf → Option PathBuf
  pub symlink_metadata : PathBuf → Option Metadata
  pub metadata : PathBuf → Option Metadata
  pub entries : PathBuf → List Entry
  pub succeeds : Effect → Bool

abbrev pub has_permission : View → Permission → Bool
has_permission v p = elim (v.permissions) [
  | none ↦ false
  | some ps ↦ Permissions.has_permission ps p
]

abbrev pub is_root : PathBuf → Bool
is_root [] = true
is_root (root_dir ∷ []) = true
is_root _ = false

-- is_ignored and is_ignored_server.
unfoldable pub is_ignored : View → PathBuf → Bool → Bool
is_ignored v p d = if is_root p then false else v.files_ignored p d || v.nil_ignored p d

abbrev pub allow_action : View → Bool
allow_action v = not v.locked && is_some v.permissions

-- `return Err(code)`, and the ways to it: a test, a missing answer, a call that fails.
abbrev pub refuse : StatusCode → Out
refuse code = ([], error code)

abbrev pub guard : Bool → StatusCode → Out → Out
guard b code rest = if b then rest else refuse code

abbrev pub found {ℓ} : {A : Type ℓ} → Option A → StatusCode → (A → Out) → Out
found none code k = refuse code
found (some a) code k = k a

abbrev pub attempt : View → Effect → StatusCode → Out → Out
attempt v e code rest = if v.succeeds e then (e ∷ rest.0, rest.1) else (e ∷ [], error code)

-- A call whose answer is not looked at.
abbrev pub then_out : Effect → Out → Out
then_out e rest = (e ∷ rest.0, rest.1)

abbrev pub success : Out
success = ([], done)

-- The three tests that most handlers start with.
abbrev pub when_writable : View → Permission → Out → Out
when_writable v p rest =
    guard (allow_action v) permission_denied (
      guard (not v.read_only) permission_denied (guard (has_permission v p) permission_denied rest))

abbrev pub when_readable : View → Permission → Out → Out
when_readable v p rest =
    guard (allow_action v) permission_denied (guard (has_permission v p) permission_denied rest)
