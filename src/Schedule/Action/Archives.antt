-- ===== src/Schedule/Action/Archives.antt =====
-- application/src/server/schedule/actions.rs: archives that are created and extracted, each in a
-- task of its own. The list of ignored files that the archive is created with is left out.
use cyrogopus.Prelude.{Bool, true, false, not, List, if◌then◌else◌}
use cyrogopus.Activity.{file_compress, file_decompress}
use cyrogopus.Cap.{PathBuf}
use cyrogopus.Schedule.Action.{
  ArchiveFormat, tar_archive, tar_gz, tar_xz, tar_bz2, tar_lz4, tar_zstd, zip_archive, seven_zip,
  uncompressed, gz, xz, bz2, lz4, zstd, View, Out, Effect, create_writer, create_tar, create_zip,
  create_7z, open_archive, extract, log_activity, succeeds, then_out, guard, found, attempt,
  finish_task, join, CompressionType,
}
use cyrogopus.Schedule.Action.Files.{is_dir_or}

abbrev tar_of : View → PathBuf → PathBuf → List PathBuf → CompressionType → Effect
tar_of v path root files compression =
    create_tar path root files compression v.compression_level v.file_compression_threads

unfoldable pub create_archive : View → PathBuf → PathBuf → List PathBuf → ArchiveFormat → Effect
create_archive v path root files tar_archive = tar_of v path root files uncompressed
create_archive v path root files tar_gz = tar_of v path root files gz
create_archive v path root files tar_xz = tar_of v path root files xz
create_archive v path root files tar_bz2 = tar_of v path root files bz2
create_archive v path root files tar_lz4 = tar_of v path root files lz4
create_archive v path root files tar_zstd = tar_of v path root files zstd
create_archive v path root files zip_archive = create_zip path root files v.compression_level
create_archive v path root files seven_zip = create_7z path root files

-- The task, which creates the archive where its writer is.
abbrev pub run_compress : View → Bool → PathBuf → Effect → Out
run_compress v foreground path archive =
    if succeeds v (create_writer path)
    then then_out (create_writer path) (
        then_out archive (
          then_out (log_activity file_compress)
            (finish_task foreground (succeeds v archive) "failed to compress files")))
    else then_out (create_writer path) (
        then_out (log_activity file_compress)
          (finish_task foreground false "failed to compress files"))

unfoldable pub compress_files : View → Bool → PathBuf → List PathBuf → ArchiveFormat → PathBuf → Out
compress_files v foreground root files format name =
    found (v.canonicalize root) "root not found" (λ path.
      guard (is_dir_or true (v.symlink_metadata path)) "root is not a directory" (
        guard (not (v.is_ignored (join path name) false)) "file not found" (
          run_compress v foreground (join path name)
            (create_archive v (join path name) path files format))))

unfoldable pub decompress_file : View → Bool → PathBuf → PathBuf → Out
decompress_file v foreground root file = found (v.canonicalize root) "root not found" (λ path.
    guard (is_dir_or true (v.metadata path)) "root is not a directory" (
      guard (not (v.is_ignored (join path file) (is_dir_or false (v.metadata (join path file)))))
        "file not found"
        (attempt v (open_archive (join path file)) "failed to open archive" (
          then_out (extract (join path file) path) (
            then_out (log_activity file_decompress) (
              finish_task foreground (succeeds v (extract (join path file) path))
                "failed to decompress file"))))))
