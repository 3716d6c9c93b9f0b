-- ===== src/Schedule/Action/Files.antt =====
-- application/src/server/schedule/actions.rs: directories that are created, and files that are
-- written and copied. `metadata` where it is missing counts as the source's `unwrap_or` says.
use cyrogopus.Prelude.{
  ℕ, Bool, true, false, not, ◌&&◌, Option, none, some, List, length, if◌then◌else◌, unwrap_or,
}
use cyrogopus.Prelude.Int.{ℤ, ◌-ℤ◌}
use cyrogopus.Prelude.Words.{as_i64, wrap_i64}
use cyrogopus.Activity.{file_create_directory, file_write, file_copy}
use cyrogopus.Cap.{PathBuf}
use cyrogopus.Sftp.{Metadata, is_dir, is_file}
use cyrogopus.Schedule.Action.{
  View, Out, create_dir_all, chown_path, flush_file, sync_file, allocate, open_with, write_all,
  copy, log_activity, succeeds, success, then_out, guard, found, attempt, finish_task, join, parent,
}

-- `metadata.map(|m| m.is_dir()).unwrap_or(default)`.
abbrev pub is_dir_or : Bool → Option Metadata → Bool
is_dir_or default none = default
is_dir_or default (some m) = is_dir m

-- The metadata is that of the root as it is written in the action.
unfoldable pub create_directory : View → PathBuf → PathBuf → Out
create_directory v root name = guard (is_dir_or true (v.metadata root)) "root is not a directory" (
    let path = unwrap_or (v.canonicalize root) root in
    let destination = join path name in
    guard (not (v.is_ignored path true)) "root not found" (
      guard (not (v.is_ignored destination true)) "destination not found" (
        attempt v (create_dir_all destination) "failed to create directory" (
          then_out (log_activity file_create_directory)
            (attempt v (chown_path destination) "failed to change ownership" success)))))

-- The size that the file has, where there is a file: `none` where the path is no file.
abbrev pub old_content_size : Option Metadata → Option ℤ
old_content_size none = some (as_i64 0)
old_content_size (some m) = if is_file m then some (as_i64 m.len) else none

abbrev pub added_content_size : Bool → List ℕ → ℤ → ℤ
added_content_size append content old =
    if append then as_i64 (length content) else wrap_i64 (as_i64 (length content) -ℤ old)

-- The file is opened, written and synced.
abbrev pub write_content : View → Bool → PathBuf → List ℕ → Out
write_content v append path content = attempt v (open_with path append) "failed to open file" (
    attempt v (write_all path content) "failed to write file" (
      attempt v (flush_file path) "failed to flush file" (
        attempt v (sync_file path) "failed to sync file" (
          then_out (log_activity file_write)
            (attempt v (chown_path path) "failed to change ownership" success)))))

-- The directory of the file is made, and the growth is charged to it.
abbrev pub write_below : View → Bool → PathBuf → List ℕ → ℤ → PathBuf → Out
write_below v append path content old directory =
    guard (not (v.is_ignored directory true)) "parent directory not found" (
      attempt v (create_dir_all directory) "failed to create parent directory" (
        attempt v (allocate directory (added_content_size append content old))
          "failed to allocate space" (write_content v append path content)))

unfoldable pub write_file : View → Bool → PathBuf → List ℕ → Out
write_file v append file content =
    let path = unwrap_or (v.canonicalize file) file in
    guard (not (v.is_ignored path (is_dir_or false (v.metadata path)))) "file not found" (
      found (old_content_size (v.metadata path)) "file is not a file"
        (λ old. found (parent path) "file has no parent" (write_below v append path content old)))

-- The copy is a task of its own.
abbrev pub copy_below : View → Bool → PathBuf → PathBuf → Metadata → PathBuf → Out
copy_below v foreground location destination m directory =
    guard (not (v.is_ignored directory true)) "parent directory not found" (
      attempt v (allocate directory (as_i64 m.len)) "failed to allocate space" (
        then_out (copy location (join directory destination)) (
          then_out (log_activity file_copy) (
            finish_task foreground (succeeds v (copy location (join directory destination)))
              "failed to copy file"))))

unfoldable pub copy_file : View → Bool → PathBuf → PathBuf → Out
copy_file v foreground file destination = found (v.canonicalize file) "file not found" (λ location.
    found (v.metadata location) "file not found" (λ m.
      guard (is_file m && not (v.is_ignored location (is_dir m))) "file not found" (
        found (parent location) "file has no parent"
          (copy_below v foreground location destination m))))
