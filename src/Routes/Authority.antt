-- ===== src/Routes/Authority.antt =====
-- application/src/routes/api/servers/_server_/files: what the calls of a request are made on.
use cyrogopus.Prelude.{
  ℕ, true, false, not, ◌&&◌, Option, none, some, List, [], ◌∷◌, arith, unwrap_or,
}
use cyrogopus.Prelude.Int.{ℤ, ◌-ℤ◌}
use cyrogopus.Prelude.Words.{as_i64, wrap_i64}
use cyrogopus.Cap.{PathBuf}
use cyrogopus.Sftp.{is_dir, is_file}
use cyrogopus.Schedule.Action.{
  RenameFile, DeleteFile, View, Out, create_dir_all, chown_path, flush_file, sync_file, allocate,
  open_with, write_all, copy, success, join, parent,
}
use cyrogopus.Schedule.Action.Files.{is_dir_or, old_content_size}
use cyrogopus.Schedule.Action.Authority.{
  IsVisible, IsSafe, guard-IsSafe, found-IsSafe, attempt-IsSafe, IsVisible-not,
}
use cyrogopus.Schedule.Action.Authority.Batch.{delete_each-IsSafe, rename_each-IsSafe}
use cyrogopus.Routes.{
  Request, delete_request, rename_request, create_directory_request, copy_request, write_request,
  serve, delete, rename, create_directory, write_chunks, write_body, write_below, write, copy_file,
}

module _ (v : View) where
  create_directory-IsSafe :
      (directory name : PathBuf) → IsSafe v (create_directory v directory name)
  unfolding create_directory
  create_directory-IsSafe directory name =
      let path = unwrap_or (v.canonicalize directory) directory in
      let destination = join path name in
      guard-IsSafe v (is_dir_or true (v.metadata path)) _ _ (λ a.
        guard-IsSafe v (not (v.is_ignored path true)) _ _ (λ b.
          guard-IsSafe v (not (v.is_ignored destination true)) _ _ (λ c.
            let seen = IsVisible-not v destination true c in
            attempt-IsSafe v (create_dir_all destination) _ _ seen
              (attempt-IsSafe v (chown_path destination) _ _ seen tt))))

  write_chunks-IsSafe :
      (path : PathBuf) (body : List (Option (List ℕ))) (rest : Out)
      → IsVisible v path
      → IsSafe v rest
      → IsSafe v (write_chunks v path body rest)
  unfolding write_chunks
  write_chunks-IsSafe path [] rest seen h = h
  write_chunks-IsSafe path (none ∷ body) rest seen h = h
  write_chunks-IsSafe path (some chunk ∷ body) rest seen h =
      attempt-IsSafe v (write_all path chunk) _ _ seen (write_chunks-IsSafe path body rest seen h)

  write_body-IsSafe :
      (path : PathBuf) (body : List (Option (List ℕ)))
      → IsVisible v path
      → IsSafe v (write_body v path body)
  write_body-IsSafe path body seen = attempt-IsSafe v (open_with path false) _ _ seen (
      write_chunks-IsSafe path body _ seen (
        attempt-IsSafe v (flush_file path) _ _ seen (
          attempt-IsSafe v (sync_file path) _ _ seen
            (attempt-IsSafe v (chown_path path) _ _ seen tt))))

  write_below-IsSafe :
      (path : PathBuf) (size : ℤ) (body : List (Option (List ℕ))) (old : ℤ) (directory : PathBuf)
      → IsVisible v path
      → IsSafe v (write_below v path size body old directory)
  write_below-IsSafe path size body old directory seen =
      guard-IsSafe v (not (v.is_ignored directory true)) _ _ (λ a.
        let above = IsVisible-not v directory true a in
        attempt-IsSafe v (create_dir_all directory) _ _ above (
          attempt-IsSafe v (allocate directory (wrap_i64 (size -ℤ old))) _ _ above
            (write_body-IsSafe path body seen)))

  write-IsSafe :
      (file : PathBuf) (content_length : Option ℤ) (body : List (Option (List ℕ)))
      → IsSafe v (write v file content_length body)
  unfolding write
  write-IsSafe file content_length body =
      let path = unwrap_or (v.canonicalize file) file in
      let flag = is_dir_or false (v.metadata path) in
      guard-IsSafe v (not (v.is_ignored path flag)) _ _ (λ a.
        found-IsSafe v (old_content_size (v.metadata path)) _ _ (λ old.
          found-IsSafe v (parent path) _ _ (λ directory.
            write_below-IsSafe path (unwrap_or content_length (as_i64 0)) body old directory
              (IsVisible-not v path flag a))))

  copy_file-IsSafe : (file name : PathBuf) → IsSafe v (copy_file v file name)
  unfolding copy_file
  copy_file-IsSafe file name = found-IsSafe v (v.canonicalize file) _ _ (λ location.
      found-IsSafe v (v.metadata location) _ _ (λ m.
        guard-IsSafe v (is_file m && not (v.is_ignored location (is_dir m))) _ _ (λ a.
          found-IsSafe v (parent location) _ _ (λ directory.
            guard-IsSafe v (not (v.is_ignored directory true)) _ _ (λ b.
              attempt-IsSafe v (allocate directory (as_i64 m.len)) _ _
                (IsVisible-not v directory true b)
                (attempt-IsSafe v (copy location (join directory name)) _ _
                  (is_dir m, ground (arith, a))
                  (found-IsSafe v (v.metadata (join directory name)) _ _ (λ copied. tt))))))))

  delete-IsSafe : (root : PathBuf) (files : List DeleteFile) → IsSafe v (delete v root files).0
  unfolding delete
  delete-IsSafe root files = found-IsSafe v (v.canonicalize root) _ _ (λ path.
      guard-IsSafe v (is_dir_or false (v.symlink_metadata path)) _ _
        (λ a. delete_each-IsSafe v path files success tt))

  rename-IsSafe : (root : PathBuf) (files : List RenameFile) → IsSafe v (rename v root files).0
  unfolding rename
  rename-IsSafe root files =
      guard-IsSafe v (is_dir_or true (v.metadata root)) _ _
        (λ a. rename_each-IsSafe v root files success tt)

-- Each call of a request to delete or to rename files, to create a directory, to write a file or to
-- copy one is made on paths that are not ignored, as a file or as a directory, but for the target of
-- a copy.
pub serve-IsSafe : (v : View) (r : Request) → IsSafe v (serve v r)
unfolding serve
serve-IsSafe v (delete_request root files) = delete-IsSafe v root files
serve-IsSafe v (rename_request root files) = rename-IsSafe v root files
serve-IsSafe v (create_directory_request path name) = create_directory-IsSafe v path name
serve-IsSafe v (copy_request file name) = copy_file-IsSafe v file name
serve-IsSafe v (write_request file content_length body) = write-IsSafe v file content_length body
