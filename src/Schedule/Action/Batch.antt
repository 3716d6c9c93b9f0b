-- ===== src/Schedule/Action/Batch.antt =====
-- application/src/server/schedule/actions.rs: files that are deleted and renamed. A file that
-- cannot be is passed over.
use cyrogopus.Prelude.{Bool, true, false, ◌||◌, none, some, List, [], ◌∷◌, if◌then◌else◌}
use cyrogopus.Activity.{file_delete, file_rename}
use cyrogopus.Cap.{PathBuf}
use cyrogopus.Sftp.{Metadata, is_dir}
use cyrogopus.Sftp.Paths.{same_path}
use cyrogopus.Schedule.Action.{
  RenameFile, DeleteFile, View, Out, truncate_path, rename_path, log_activity, success, then_out,
  guard, found, join,
}
use cyrogopus.Schedule.Action.Files.{is_dir_or}

-- The loop over the files, and what comes after it.
unfoldable pub delete_each : View → PathBuf → List DeleteFile → Out → Out
delete_each v root [] rest = rest
delete_each v root ((file, is_directory) ∷ files) rest =
    let next = delete_each v root files rest in
    if same_path (join root file) root
    then next
    else if v.is_ignored (join root file) is_directory
    then next
    else then_out (truncate_path (join root file)) next

unfoldable pub delete_files : View → PathBuf → List DeleteFile → Out
delete_files v root files = found (v.canonicalize root) "root not found" (λ path.
    guard (is_dir_or false (v.symlink_metadata path)) "root is not a directory"
      (delete_each v path files (then_out (log_activity file_delete) success)))

-- Whether the new path is taken, or one of the two is ignored.
abbrev pub is_blocked : View → PathBuf → PathBuf → RenameFile → Metadata → Bool
is_blocked v from to file m =
    file.to_exists || (v.is_ignored from (is_dir m) || v.is_ignored to (is_dir m))

unfoldable pub rename_each : View → PathBuf → List RenameFile → Out → Out
rename_each v root [] rest = rest
rename_each v root (file ∷ files) rest =
    let next = rename_each v root files rest in
    let from = join root file.from in
    let to = join root file.to in
    if same_path from root
    then next
    else if same_path to root
    then next
    else if same_path from to
    then next
    else elim (file.from_metadata) [
      | none ↦ next
      | some m ↦ if is_blocked v from to file m then next else then_out (rename_path from to) next
    ]

-- The root is taken as it is written.
unfoldable pub rename_files : View → PathBuf → List RenameFile → Out
rename_files v root files =
    guard (is_dir_or true (v.metadata root)) "root is not a directory"
      (rename_each v root files (then_out (log_activity file_rename) success))
