-- ===== src/Sftp/Paths.antt =====
-- application/src/ssh/sftp.rs: the handlers of requests that name a path.
use cyrogopus.Prelude.{
  ℕ, Bool, true, false, not, ◌&&◌, ◌||◌, ◌%◌, Option, none, some, [], ◌∷◌, if◌then◌else◌, is_some,
  unwrap_or,
}
use cyrogopus.Permissions.{file_read, file_create, file_update, file_delete}
use cyrogopus.Activity.{sftp_create, sftp_create_directory, sftp_rename, sftp_delete}
use cyrogopus.Cap.{root_dir, same_component, PathBuf}
use cyrogopus.Sftp.{
  View, Out, Metadata, Effect, truncate_path, create_dir, chown_path, log_activity, names,
  permission_denied, failure, no_such_file, is_dir, is_file, is_ignored, refuse, guard, found,
  attempt, then_out, success, when_writable, when_readable, attributes,
}
use cyrogopus.Sftp

-- `mode & 0o777`.
abbrev pub mode_bits : ℕ → ℕ
mode_bits mode = mode % 512

abbrev pub same_path : PathBuf → PathBuf → Bool
same_path [] [] = true
same_path (c ∷ p) (d ∷ q) = same_component c d && same_path p q
same_path _ _ = false

-- `is_top` is whether the client wrote `/..`, `.` or `/`.
unfoldable pub realpath : View → Bool → PathBuf → Out
realpath v is_top path =
    if is_top
    then ([], names ((root_dir ∷ []) ∷ []))
    else found (v.canonicalize path) no_such_file (λ p. ([], names ((root_dir ∷ p) ∷ [])))

abbrev pub remove_found : View → PathBuf → Metadata → Out
remove_found v path m = guard (not (is_dir m)) no_such_file (
    guard (not (is_ignored v path (is_dir m))) no_such_file (
      attempt v (truncate_path path) no_such_file
        (then_out (log_activity sftp_delete path) success)))

-- The path as the client wrote it stands in where it cannot be canonicalized.
unfoldable pub remove : View → PathBuf → Out
remove v filename = when_writable v file_delete (
    let path = unwrap_or (v.canonicalize filename) filename in
    elim (v.symlink_metadata path) [ none ↦ success | some m ↦ remove_found v path m ])

abbrev pub rmdir_found : View → PathBuf → PathBuf → Metadata → Out
rmdir_found v base path m = guard (is_dir m) no_such_file (
    guard (not (is_ignored v path true)) no_such_file (
      if same_path path base
      then then_out (log_activity sftp_delete path) success
      else attempt v (truncate_path path) no_such_file
          (then_out (log_activity sftp_delete path) success)))

-- `base` is the base path of the server's filesystem.
unfoldable pub rmdir : View → PathBuf → PathBuf → Out
rmdir v base name = when_writable v file_delete (
    found (v.canonicalize name) no_such_file (λ path. elim (v.symlink_metadata path) [
      | none ↦ success
      | some m ↦ rmdir_found v base path m
    ]))

-- The mode that a client asks for, set where it asks for one.
abbrev pub with_mode : View → PathBuf → Option ℕ → Out → Out
with_mode v path none rest = rest
with_mode v path (some mode) rest =
    attempt v (Sftp.set_permissions path (mode_bits mode)) failure rest

unfoldable pub mkdir : View → PathBuf → Option ℕ → Out
mkdir v path mode = when_writable v file_create (
    guard (not (is_ignored v path true)) no_such_file (
      if is_some (v.symlink_metadata path)
      then success
      else attempt v (create_dir path) no_such_file (
          attempt v (chown_path path) failure
            (with_mode v path mode (then_out (log_activity sftp_create_directory path) success)))))

-- Whether a new path is taken, or one of the two is ignored.
abbrev pub rename_blocked : View → PathBuf → PathBuf → Metadata → Bool
rename_blocked v old_path new_path m =
    is_some (v.symlink_metadata new_path)
    || (is_ignored v old_path (is_dir m) || is_ignored v new_path (is_dir m))

unfoldable pub rename : View → PathBuf → PathBuf → Out
rename v old new_path = when_writable v file_update (
    found (v.canonicalize old) no_such_file (λ old_path.
      found (v.symlink_metadata old_path) no_such_file (λ m.
        guard (not (rename_blocked v old_path new_path m)) failure (
          attempt v (Sftp.rename_path old_path new_path) no_such_file
            (then_out (log_activity sftp_rename old_path) success)))))

unfoldable pub setstat : View → PathBuf → Option ℕ → Out
setstat v name mode = when_writable v file_update (
    found (v.canonicalize name) no_such_file (λ path.
      found (v.symlink_metadata path) no_such_file (λ m.
        guard (not (is_ignored v path (is_dir m))) no_such_file (with_mode v path mode success))))

unfoldable pub stat : View → PathBuf → Out
stat v name = when_readable v file_read (
    found (v.canonicalize name) no_such_file (λ path.
      found (v.metadata path) no_such_file
        (λ m. guard (not (is_ignored v path (is_dir m))) no_such_file ([], attributes m))))

unfoldable pub lstat : View → PathBuf → Out
lstat v path = when_readable v file_read (
    found (v.symlink_metadata path) no_such_file
      (λ m. guard (not (is_ignored v path (is_dir m))) no_such_file ([], attributes m)))

unfoldable pub readlink : View → PathBuf → Out
readlink v name = when_readable v file_read (
    found (v.read_link name) no_such_file (λ path.
      found (v.symlink_metadata path) no_such_file
        (λ m. guard (not (is_ignored v path (is_dir m))) no_such_file ([], names (path ∷ [])))))

-- A link to a regular file that is not ignored, in a place that is not ignored.
abbrev pub is_linkable : View → PathBuf → PathBuf → Metadata → Bool
is_linkable v target link m =
    is_file m && (not (is_ignored v target (is_dir m)) && not (is_ignored v link false))

-- `same_name` is whether the client wrote the same text twice.
unfoldable pub symlink : View → Bool → PathBuf → PathBuf → Out
symlink v same_name link target_name = when_writable v file_create (
    guard (not same_name) no_such_file (
      found (v.canonicalize target_name) no_such_file (λ target.
        found (v.symlink_metadata target) no_such_file (λ m.
          guard (is_linkable v target link m) no_such_file (
            attempt v (Sftp.symlink target link) failure
              (then_out (log_activity sftp_create link) success))))))
