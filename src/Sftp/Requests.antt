-- ===== src/Sftp/Requests.antt =====
-- application/src/ssh/sftp.rs: every request of a client, and runs of them.
use cyrogopus.Prelude.{ℕ, Bool, Option, List, [], ◌∷◌}
use cyrogopus.Cap.{PathBuf}
use cyrogopus.Sftp.{View, Out, OpenFlags}
use cyrogopus.Sftp.Paths
use cyrogopus.Sftp.Handles.{SftpSession, ReadLimits}
use cyrogopus.Sftp.Handles
use cyrogopus.Sftp.Files
use cyrogopus.Sftp.Extended

-- What a client can ask for, with what the file or the disk has to say to it.
pub data Request : Type 0 where
  to_realpath : Bool → PathBuf → Request
  to_remove to_stat to_lstat to_readlink : PathBuf → Request
  to_rmdir to_rename : PathBuf → PathBuf → Request
  to_mkdir to_setstat : PathBuf → Option ℕ → Request
  to_symlink : Bool → PathBuf → PathBuf → Request
  to_close to_readdir to_fstat to_fsync : ℕ → Request
  to_opendir : PathBuf → Request
  to_open : PathBuf → OpenFlags → Request
  to_fsetstat to_lsetstat : ℕ → Option ℕ → Request
  to_read to_write : ℕ → ℕ → ℕ → Request
  to_check_file : Bool → PathBuf → ℕ → Option (List ℕ) → Request
  to_copy_file : PathBuf → PathBuf → Bool → Request
  to_space_available to_statvfs : ℕ → ℕ → ℕ → ℕ → Request
  to_limits : Request
  to_hardlink : PathBuf → PathBuf → Request

abbrev pub handle : View → ReadLimits → SftpSession → Request → SftpSession × Out
handle v l s (to_realpath top p) = (s, Paths.realpath v top p)
handle v l s (to_remove p) = (s, Paths.remove v p)
handle v l s (to_stat p) = (s, Paths.stat v p)
handle v l s (to_lstat p) = (s, Paths.lstat v p)
handle v l s (to_readlink p) = (s, Paths.readlink v p)
handle v l s (to_rmdir base p) = (s, Paths.rmdir v base p)
handle v l s (to_rename p q) = (s, Paths.rename v p q)
handle v l s (to_mkdir p mode) = (s, Paths.mkdir v p mode)
handle v l s (to_setstat p mode) = (s, Paths.setstat v p mode)
handle v l s (to_symlink same link p) = (s, Paths.symlink v same link p)
handle v l s (to_close h) = Handles.close s h
handle v l s (to_readdir h) = Handles.readdir v l s h
handle v l s (to_fstat h) = (s, Files.fstat v s h)
handle v l s (to_fsync h) = (s, Extended.fsync v s h)
handle v l s (to_opendir p) = Handles.opendir v s p
handle v l s (to_open p f) = Files.open_file v s p f
handle v l s (to_fsetstat h mode) = (s, Files.fsetstat v s h mode)
handle v l s (to_lsetstat h mode) = (s, Extended.lsetstat v s h mode)
handle v l s (to_read h available len) = (s, Files.read v s h available len)
handle v l s (to_write h offset count) = (s, Files.write v s h offset count)
handle v l s (to_check_file named p h slices) = (s, Extended.check_file v s named p h slices)
handle v l s (to_copy_file p q overwrite) = (s, Extended.copy_file v p q overwrite)
handle v l s (to_space_available a b c d) = (s, Extended.space_available v a b c d)
handle v l s (to_statvfs a b c d) = (s, Extended.statvfs v a b c d)
handle v l s to_limits = (s, Extended.limits_reply v)
handle v l s (to_hardlink link p) = (s, Extended.hardlink v link p)

-- A session of requests, each in the view of its time.
abbrev pub run : ReadLimits → SftpSession → List (View × Request) → SftpSession
run l s [] = s
run l s ((v, r) ∷ rs) = run l (handle v l s r).0 rs
