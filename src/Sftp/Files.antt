-- ===== src/Sftp/Files.antt =====
-- application/src/ssh/sftp.rs: the opening of files, and the handlers that use their handles.
use cyrogopus.Prelude.{
  ℕ, ◌*◌, Bool, false, not, ◌||◌, Option, none, some, [], ◌∷◌, ltb, if◌then◌else◌, ◌==◌, unwrap_or,
}
use cyrogopus.Permissions.{file_read_content, file_create, file_update, file_delete}
use cyrogopus.Activity.{ActivityEvent, sftp_create, sftp_write}
use cyrogopus.Cap.{root_dir, pop, PathBuf}
use cyrogopus.Sftp.{
  View, Out, opened, bytes_read, Metadata, OpenFlags, open_with, allocate, write_at, read_at,
  log_activity, permission_denied, failure, no_such_file, eof, is_file, is_ignored, has_permission,
  allow_action, refuse, guard, found, attempt, then_out, success,
}
use cyrogopus.Sftp.Paths.{setstat, stat}
use cyrogopus.Sftp.Handles.{
  file_handle, handle_path, SftpSession, get, file_of, has_room, after_open,
}

-- `filename.strip_prefix("/").unwrap_or(&filename)`.
abbrev pub without_root : PathBuf → PathBuf
without_root (root_dir ∷ p) = p
without_root p = p

abbrev pub open_path : View → PathBuf → PathBuf
open_path v name = unwrap_or (v.canonicalize name) (without_root name)

abbrev pub writes : OpenFlags → Bool
writes f = f.write_flag || f.append_flag

-- Whether the user has the permission for each flag.
abbrev pub may_update : View → OpenFlags → Bool
may_update v f = not (writes f) || has_permission v file_update

abbrev pub may_create : View → OpenFlags → Bool
may_create v f = not f.create_flag || has_permission v file_create

abbrev pub may_truncate : View → OpenFlags → Bool
may_truncate v f = not f.truncate_flag || has_permission v file_delete

abbrev pub may_read : View → OpenFlags → Bool
may_read v f = not f.read_flag || has_permission v file_read_content

-- What is there is a regular file, or what is not there is to be created.
abbrev pub is_openable : OpenFlags → Option Metadata → Bool
is_openable f none = f.create_flag
is_openable f (some m) = is_file m

abbrev pub open_event : OpenFlags → Option ActivityEvent
open_event f =
    if f.truncate_flag || f.create_flag
    then some sftp_create
    else if writes f
    then some sftp_write
    else none

abbrev pub log_open : Option ActivityEvent → PathBuf → Out → Out
log_open none p rest = rest
log_open (some event) p rest = then_out (log_activity event p) rest

abbrev pub open_out : View → SftpSession → PathBuf → OpenFlags → Out
open_out v s path f = guard (allow_action v) permission_denied (
    guard (has_room s) failure (
      guard (may_update v f) permission_denied (
        guard (may_create v f) permission_denied (
          guard (may_truncate v f) permission_denied (
            guard (may_read v f) permission_denied (
              guard (is_openable f (v.symlink_metadata path)) no_such_file (
                guard (not (is_ignored v path false)) no_such_file (
                  attempt v (open_with path f) failure
                    (log_open (open_event f) path ([], opened s.handle_id))))))))))

unfoldable pub open_file : View → SftpSession → PathBuf → OpenFlags → SftpSession × Out
open_file v s name f =
    after_open s (file_handle (open_path v name)) (open_out v s (open_path v name) f)

unfoldable pub fsetstat : View → SftpSession → ℕ → Option ℕ → Out
unfolding setstat
fsetstat v s h mode =
    guard (allow_action v) permission_denied
      (found (file_of (get s.handles h)) no_such_file (λ path. setstat v path mode))

unfoldable pub fstat : View → SftpSession → ℕ → Out
unfolding stat
fstat v s h =
    guard (allow_action v) permission_denied
      (found (get s.handles h) no_such_file (λ x. stat v (handle_path x)))

-- `len.min(256 * 1024)`.
abbrev pub read_len : ℕ → ℕ
read_len len = if ltb len (256 * 1024) then len else 256 * 1024

-- `available` is what the file has from the offset on.
unfoldable pub read : View → SftpSession → ℕ → ℕ → ℕ → Out
read v s h available len =
    let count = if ltb available (read_len len) then available else read_len len in
    guard (allow_action v) permission_denied (
      found (file_of (get s.handles h)) no_such_file (λ path.
        attempt v (read_at path) failure
          (if count == 0 then refuse eof else ([], bytes_read count))))

-- The bytes are charged to the directory of the file.
unfoldable pub write : View → SftpSession → ℕ → ℕ → ℕ → Out
write v s h offset count = guard (allow_action v) permission_denied (
    found (file_of (get s.handles h)) no_such_file (λ path.
      guard (not v.read_only) permission_denied (
        attempt v (allocate (pop path) count) failure
          (attempt v (write_at path offset count) failure success))))
