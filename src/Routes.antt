-- ===== src/Routes.antt =====
-- application/src/routes/api/servers/_server_/files: the requests of the panel to delete, rename,
-- write and copy files and to create directories, with the calls and the views of the schedule's actions. A reply has the text of its
-- error, `none` for success; its status is left out, and the text of an error that is passed on is
-- one for all.
pub mod Authority
mod Tests
use cyrogopus.Prelude.{
  ℕ, suc, String, Bool, true, false, not, ◌&&◌, Option, none, some, List, [], ◌∷◌, if◌then◌else◌,
  unwrap_or, concat, is_some, str_eq,
}
use cyrogopus.Prelude.Int.{ℤ, ◌-ℤ◌}
use cyrogopus.Prelude.Words.{as_i64, wrap_i64}
use cyrogopus.Cap.{PathBuf, normal}
use cyrogopus.Sftp.{Metadata, is_dir, is_file}
use cyrogopus.Schedule.Action.{
  RenameFile, DeleteFile, View, Out, Effect, create_dir_all, chown_path, flush_file, sync_file,
  truncate_path, rename_path, allocate, open_with, write_all, copy, succeeds, success, guard, found,
  attempt, join, parent,
}
use cyrogopus.Schedule.Action.Files.{is_dir_or, old_content_size}
use cyrogopus.Schedule.Action.Batch.{delete_each, rename_each}

abbrev internal : String
internal = "internal server error"

-- How many of the deletions and renames succeed: the count in the reply.
unfoldable pub count_done : View → List Effect → ℕ
count_done v [] = 0
count_done v (e ∷ es) = let rest = count_done v es in if succeeds v e then suc rest else rest

unfoldable pub delete : View → PathBuf → List DeleteFile → Out × ℕ
delete v root files =
    let out = found (v.canonicalize root) "root not found" (λ path.
      guard (is_dir_or false (v.symlink_metadata path)) "root is not a directory"
        (delete_each v path files success)) in
    (out, count_done v out.0)

unfoldable pub rename : View → PathBuf → List RenameFile → Out × ℕ
rename v root files =
    let out =
      guard (is_dir_or true (v.metadata root)) "root is not a directory"
        (rename_each v root files success) in
    (out, count_done v out.0)

unfoldable pub create_directory : View → PathBuf → PathBuf → Out
create_directory v directory name =
    let path = unwrap_or (v.canonicalize directory) directory in
    let destination = join path name in
    guard (is_dir_or true (v.metadata path)) "path is not a directory" (
      guard (not (v.is_ignored path true)) "path not found" (
        guard (not (v.is_ignored destination true)) "destination not found" (
          attempt v (create_dir_all destination) internal
            (attempt v (chown_path destination) internal success))))

-- The body of the request: its chunks, up to one that is an error.
unfoldable pub write_chunks : View → PathBuf → List (Option (List ℕ)) → Out → Out
write_chunks v path [] rest = rest
write_chunks v path (none ∷ body) rest = rest
write_chunks v path (some chunk ∷ body) rest =
    let next = write_chunks v path body rest in attempt v (write_all path chunk) internal next

abbrev pub write_body : View → PathBuf → List (Option (List ℕ)) → Out
write_body v path body = attempt v (open_with path false) internal (
    write_chunks v path body (
      attempt v (flush_file path) internal
        (attempt v (sync_file path) internal (attempt v (chown_path path) internal success))))

abbrev pub write_below : View → PathBuf → ℤ → List (Option (List ℕ)) → ℤ → PathBuf → Out
write_below v path content_size body old directory =
    guard (not (v.is_ignored directory true)) "parent directory not found" (
      attempt v (create_dir_all directory) internal (
        attempt v (allocate directory (wrap_i64 (content_size -ℤ old))) "failed to allocate space"
          (write_body v path body)))

-- `content_length` is the number of the header, where the request has one that can be read.
unfoldable pub write : View → PathBuf → Option ℤ → List (Option (List ℕ)) → Out
write v file content_length body =
    let path = unwrap_or (v.canonicalize file) file in
    let flag = is_dir_or false (v.metadata path) in
    guard (not (v.is_ignored path flag)) "file not found" (
      found (old_content_size (v.metadata path)) "file is not a file" (λ old.
        found (parent path) "file has no parent"
          (write_below v path (unwrap_or content_length (as_i64 0)) body old)))

-- The names that are tried for a copy: the first that is free, and one with the time at the end. The
-- texts are those of " copy", " copy 1", ... and of the time.
unfoldable pub free_name : View → PathBuf → String → String → List String → String → String
free_name v directory base extension [] timed = concat base (concat timed extension)
free_name v directory base extension (suffix ∷ suffixes) timed =
    let rest = free_name v directory base extension suffixes timed in
    let name = concat base (concat suffix extension) in
    if is_some (v.symlink_metadata (join directory (normal name ∷ []))) then rest else name

abbrev pub copy_below : View → PathBuf → PathBuf → Metadata → PathBuf → Out
copy_below v location name m directory =
    guard (not (v.is_ignored directory true)) "parent directory not found" (
      attempt v (allocate directory (as_i64 m.len)) "failed to allocate space" (
        attempt v (copy location (join directory name)) internal
          (found (v.metadata (join directory name)) internal (λ copied. success))))

-- `name` is the one of the request, or the one that is generated.
unfoldable pub copy_file : View → PathBuf → PathBuf → Out
copy_file v file name = found (v.canonicalize file) "file not found" (λ location.
    found (v.metadata location) "file not found" (λ m.
      guard (is_file m && not (v.is_ignored location (is_dir m))) "file not found"
        (found (parent location) "file has no parent" (copy_below v location name m))))

pub data Request : Type 0 where
  delete_request : PathBuf → List DeleteFile → Request
  rename_request : PathBuf → List RenameFile → Request
  create_directory_request copy_request : PathBuf → PathBuf → Request
  write_request : PathBuf → Option ℤ → List (Option (List ℕ)) → Request

unfoldable pub serve : View → Request → Out
serve v (delete_request root files) = (delete v root files).0
serve v (rename_request root files) = (rename v root files).0
serve v (create_directory_request path name) = create_directory v path name
serve v (copy_request file name) = copy_file v file name
serve v (write_request file content_length body) = write v file content_length body
