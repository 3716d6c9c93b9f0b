-- ===== src/Schedule/Action/Authority/Files.antt =====
-- application/src/server/schedule/actions.rs: directories and files, and archives.
use cyrogopus.Prelude.{
  ℕ, Bool, List, arith, ◌&&◌, not, Bool-cases, inl, inr, unwrap_or, true, false,
}
use cyrogopus.Prelude.Words.{as_i64}
use cyrogopus.Prelude.Int.{ℤ}
use cyrogopus.Cap.{PathBuf}
use cyrogopus.Sftp.{Metadata, is_file, is_dir}
use cyrogopus.Schedule.Action.{
  ArchiveFormat, tar_archive, tar_gz, tar_xz, tar_bz2, tar_lz4, tar_zstd, zip_archive, seven_zip,
  View, Effect, create_writer, succeeds, join, parent, open_archive, create_dir_all, chown_path,
  open_with, write_all, flush_file, sync_file, allocate,
}
use cyrogopus.Schedule.Action.Files.{
  create_directory, write_content, write_below, write_file, copy_below, copy_file, is_dir_or,
  old_content_size, added_content_size,
}
use cyrogopus.Schedule.Action.Archives.{
  create_archive, run_compress, compress_files, decompress_file,
}
use cyrogopus.Schedule.Action.Authority.{
  IsVisible, IsAllowed, IsSafe, guard-IsSafe, found-IsSafe, attempt-IsSafe, finish_task-IsSafe,
  IsVisible-not,
}

module _ (v : View) where
  pub create_directory-IsSafe : (root name : PathBuf) → IsSafe v (create_directory v root name)
  unfolding create_directory
  create_directory-IsSafe root name =
      let path = unwrap_or (v.canonicalize root) root in
      let destination = join path name in
      guard-IsSafe v (is_dir_or true (v.metadata root)) _ _ (λ a.
        guard-IsSafe v (not (v.is_ignored path true)) _ _ (λ b.
          guard-IsSafe v (not (v.is_ignored destination true)) _ _ (λ c.
            let seen = IsVisible-not v destination true c in
            attempt-IsSafe v (create_dir_all destination) _ _ seen
              (tt, attempt-IsSafe v (chown_path destination) _ _ seen tt))))

  write_content-IsSafe :
      (append : Bool) (path : PathBuf) (content : List ℕ)
      → IsVisible v path
      → IsSafe v (write_content v append path content)
  write_content-IsSafe append path content seen =
      attempt-IsSafe v (open_with path append) _ _ seen (
        attempt-IsSafe v (write_all path content) _ _ seen (
          attempt-IsSafe v (flush_file path) _ _ seen (
            attempt-IsSafe v (sync_file path) _ _ seen
              (tt, attempt-IsSafe v (chown_path path) _ _ seen tt))))

  write_below-IsSafe :
      (append : Bool) (path : PathBuf) (content : List ℕ) (old : ℤ) (directory : PathBuf)
      → IsVisible v path
      → IsSafe v (write_below v append path content old directory)
  write_below-IsSafe append path content old directory seen =
      guard-IsSafe v (not (v.is_ignored directory true)) _ _ (λ a.
        let above = IsVisible-not v directory true a in
        attempt-IsSafe v (create_dir_all directory) _ _ above (
          attempt-IsSafe v (allocate directory (added_content_size append content old)) _ _ above
            (write_content-IsSafe append path content seen)))

  pub write_file-IsSafe :
      (append : Bool) (file : PathBuf) (content : List ℕ)
      → IsSafe v (write_file v append file content)
  unfolding write_file
  write_file-IsSafe append file content =
      let path = unwrap_or (v.canonicalize file) file in
      let flag = is_dir_or false (v.metadata path) in
      guard-IsSafe v (not (v.is_ignored path flag)) _ _ (λ a.
        found-IsSafe v (old_content_size (v.metadata path)) _ _ (λ old.
          found-IsSafe v (parent path) _ _ (λ directory.
            write_below-IsSafe append path content old directory (IsVisible-not v path flag a))))

  copy_below-IsSafe :
      (foreground : Bool) (location destination : PathBuf) (m : Metadata) (directory : PathBuf)
      → IsVisible v location
      → IsSafe v (copy_below v foreground location destination m directory)
  copy_below-IsSafe foreground location destination m directory seen =
      guard-IsSafe v (not (v.is_ignored directory true)) _ _ (λ a.
        attempt-IsSafe v (allocate directory (as_i64 m.len)) _ _ (IsVisible-not v directory true a)
          (seen, (tt, finish_task-IsSafe v foreground _ _)))

  pub copy_file-IsSafe :
      (foreground : Bool) (file destination : PathBuf)
      → IsSafe v (copy_file v foreground file destination)
  unfolding copy_file
  copy_file-IsSafe foreground file destination =
      found-IsSafe v (v.canonicalize file) _ _ (λ location.
        found-IsSafe v (v.metadata location) _ _ (λ m.
          guard-IsSafe v (is_file m && not (v.is_ignored location (is_dir m))) _ _ (λ a.
            found-IsSafe v (parent location) _ _ (λ directory.
              copy_below-IsSafe foreground location destination m directory
                (is_dir m, ground (arith, a))))))

  create_archive-IsAllowed :
      (path root : PathBuf) (files : List PathBuf) (format : ArchiveFormat)
      → IsVisible v path
      → IsAllowed v (create_archive v path root files format)
  unfolding create_archive
  create_archive-IsAllowed path root files tar_archive seen = seen
  create_archive-IsAllowed path root files tar_gz seen = seen
  create_archive-IsAllowed path root files tar_xz seen = seen
  create_archive-IsAllowed path root files tar_bz2 seen = seen
  create_archive-IsAllowed path root files tar_lz4 seen = seen
  create_archive-IsAllowed path root files tar_zstd seen = seen
  create_archive-IsAllowed path root files zip_archive seen = seen
  create_archive-IsAllowed path root files seven_zip seen = seen

  run_compress-IsSafe :
      (foreground : Bool) (path : PathBuf) (archive : Effect)
      → IsVisible v path
      → IsAllowed v archive
      → IsSafe v (run_compress v foreground path archive)
  run_compress-IsSafe foreground path archive seen h =
      elim (Bool-cases (succeeds v (create_writer path))) [
        | inl s ↦ rw s (seen, (h, (tt, finish_task-IsSafe v foreground _ _)))
        | inr s ↦ rw s (seen, (tt, finish_task-IsSafe v foreground false _))
      ]

  pub compress_files-IsSafe :
      (foreground : Bool) (root : PathBuf) (files : List PathBuf) (format : ArchiveFormat)
      (name : PathBuf)
      → IsSafe v (compress_files v foreground root files format name)
  unfolding compress_files
  compress_files-IsSafe foreground root files format name =
      found-IsSafe v (v.canonicalize root) _ _ (λ path.
        guard-IsSafe v (is_dir_or true (v.symlink_metadata path)) _ _ (λ a.
          guard-IsSafe v (not (v.is_ignored (join path name) false)) _ _ (λ b.
            let seen = IsVisible-not v (join path name) false b in
            run_compress-IsSafe foreground (join path name)
              (create_archive v (join path name) path files format) seen
              (create_archive-IsAllowed (join path name) path files format seen))))

  pub decompress_file-IsSafe :
      (foreground : Bool) (root file : PathBuf) → IsSafe v (decompress_file v foreground root file)
  unfolding decompress_file
  decompress_file-IsSafe foreground root file = found-IsSafe v (v.canonicalize root) _ _ (λ path.
      guard-IsSafe v (is_dir_or true (v.metadata path)) _ _ (λ a.
        let source = join path file in
        let flag = is_dir_or false (v.metadata source) in
        guard-IsSafe v (not (v.is_ignored source flag)) _ _ (λ b.
          let seen = IsVisible-not v source flag b in
          attempt-IsSafe v (open_archive source) _ _ seen
            (seen, (tt, finish_task-IsSafe v foreground _ _)))))
