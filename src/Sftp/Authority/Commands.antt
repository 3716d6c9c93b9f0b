-- ===== src/Sftp/Authority/Commands.antt =====
-- application/src/ssh/sftp.rs: the extended commands one by one, and then every request.
use cyrogopus.Prelude.{ℕ, Bool, true, false, not, ◌&&◌, Option, none, some, List, ◌≡◌, arith}
use cyrogopus.Permissions.{file_read, file_read_content, file_create, file_update}
use cyrogopus.Cap.{PathBuf, pop}
use cyrogopus.Sftp.{
  View, Out, space, limits, hashed, Metadata, OpenFlags, Effect, allocate, read_file, copy,
  hard_link, sync_all, is_dir, is_file, is_ignored, has_permission, allow_action, success,
  permission_denied,
}
use cyrogopus.Sftp
use cyrogopus.Sftp.Paths.{same_path, is_linkable, mode_bits}
use cyrogopus.Sftp.Handles.{SftpSession, get, file_of, ReadLimits, handle_limit}
use cyrogopus.Sftp.Handles
use cyrogopus.Sftp.Extended
use cyrogopus.Sftp.Extended.{
  hash_reply, check_path, check_found, is_overwritable, space_of, with_link_mode,
}
use cyrogopus.Sftp.Requests.{
  Request, to_realpath, to_remove, to_stat, to_lstat, to_readlink, to_rmdir, to_rename, to_mkdir,
  to_setstat, to_symlink, to_close, to_readdir, to_fstat, to_fsync, to_opendir, to_open,
  to_fsetstat, to_lsetstat, to_read, to_write, to_check_file, to_copy_file, to_space_available,
  to_statvfs, to_limits, to_hardlink, handle,
}
use cyrogopus.Sftp.Authority.{
  IsSafe, Writable, guard-IsSafe, found-IsSafe, attempt-IsSafe, when_writable-IsSafe, IsVisible-not,
  reply-IsSafe,
}
use cyrogopus.Sftp.Authority.Paths.{
  realpath-IsSafe, remove-IsSafe, rmdir-IsSafe, mkdir-IsSafe, rename-IsSafe, setstat-IsSafe,
  stat-IsSafe, lstat-IsSafe, readlink-IsSafe, symlink-IsSafe, is_linkable-IsVisible,
}
use cyrogopus.Sftp.Authority.Files.{
  opendir-IsSafe, readdir-IsSafe, open_file-IsSafe, fsetstat-IsSafe, fstat-IsSafe, read-IsSafe,
  write-IsSafe,
}

module _ (v : View) where
  hash_reply-IsSafe : (slices : Option (List ℕ)) → IsSafe v (hash_reply slices)
  hash_reply-IsSafe none = tt
  hash_reply-IsSafe (some slices) = tt

  check_found-IsSafe :
      (p : PathBuf) (slices : Option (List ℕ)) (o : Option Metadata)
      → allow_action v ≡ true
      → has_permission v file_read ≡ true
      → IsSafe v (check_found v p slices o)
  check_found-IsSafe p slices none a q = tt
  check_found-IsSafe p slices (some m) a q = guard-IsSafe v (is_file m) _ _ (λ f.
      guard-IsSafe v (not (is_ignored v p (is_dir m))) _ _ (λ i.
        attempt-IsSafe v (read_file p) _ _ a (q, IsVisible-not v p (is_dir m) i)
          (hash_reply-IsSafe slices)))

  check_file-IsSafe :
      (s : SftpSession) (named : Bool) (p : PathBuf) (h : ℕ) (slices : Option (List ℕ))
      → IsSafe v (Extended.check_file v s named p h slices)
  unfolding Extended.check_file
  check_file-IsSafe s named p h slices = guard-IsSafe v (allow_action v) _ _ (λ a.
      guard-IsSafe v (has_permission v file_read) _ _ (λ q.
        found-IsSafe v (check_path s named p h) _ _ (λ name.
          found-IsSafe v (v.canonicalize name) _ _
            (λ path. check_found-IsSafe path slices (v.symlink_metadata path) a q))))

  copy_file-IsSafe :
      (p destination : PathBuf) (overwrite : Bool)
      → IsSafe v (Extended.copy_file v p destination overwrite)
  unfolding Extended.copy_file
  copy_file-IsSafe p destination overwrite = guard-IsSafe v (allow_action v) _ _ (λ a.
      guard-IsSafe v (has_permission v file_read_content && has_permission v file_create) _ _ (λ q.
        found-IsSafe v (v.canonicalize p) _ _ (λ source.
          found-IsSafe v (v.symlink_metadata source) _ _ (λ m. guard-IsSafe v (is_file m) _ _ (λ f.
            guard-IsSafe v (not (is_ignored v source false)) _ _ (λ i.
              guard-IsSafe v (is_overwritable (v.metadata destination) overwrite) _ _ (λ o.
                attempt-IsSafe v (allocate (pop destination) m.len) _ _ a tt (
                  attempt-IsSafe v (copy source destination) _ _ a
                    (ground (arith, q), ground (arith, q), IsVisible-not v source false i)
                    ((a, tt), tt)))))))))

  space_available-IsSafe : (a b c d : ℕ) → IsSafe v (Extended.space_available v a b c d)
  unfolding Extended.space_available
  space_available-IsSafe a b c d = reply-IsSafe v (allow_action v) permission_denied (space _ _)

  statvfs-IsSafe : (a b c d : ℕ) → IsSafe v (Extended.statvfs v a b c d)
  unfolding Extended.statvfs
  statvfs-IsSafe a b c d = reply-IsSafe v (allow_action v) permission_denied (space _ _)

  limits_reply-IsSafe : IsSafe v (Extended.limits_reply v)
  unfolding Extended.limits_reply
  limits_reply-IsSafe = reply-IsSafe v (allow_action v) permission_denied (limits _ _ _ _)

  hardlink-IsSafe : (link p : PathBuf) → IsSafe v (Extended.hardlink v link p)
  unfolding Extended.hardlink
  hardlink-IsSafe link p = when_writable-IsSafe v _ _ (λ a w.
      guard-IsSafe v (not (same_path link p)) _ _ (λ n.
        found-IsSafe v (v.canonicalize p) _ _ (λ target.
          found-IsSafe v (v.symlink_metadata target) _ _ (λ m.
            guard-IsSafe v (is_linkable v target link m) _ _ (λ i.
              let seen = is_linkable-IsVisible v target link m i in
              attempt-IsSafe v (hard_link target link) _ _ a (w, seen.0, seen.1) ((a, tt), tt))))))

  fsync-IsSafe : (s : SftpSession) (h : ℕ) → IsSafe v (Extended.fsync v s h)
  unfolding Extended.fsync
  fsync-IsSafe s h = when_writable-IsSafe v _ _ (λ a w.
      found-IsSafe v (file_of (get s.handles h)) _ _
        (λ p. attempt-IsSafe v (sync_all p) _ _ a w tt))

  with_link_mode-IsSafe :
      (p : PathBuf) (mode : Option ℕ)
      → allow_action v ≡ true
      → Writable v file_update
      → IsSafe v (with_link_mode v p mode)
  with_link_mode-IsSafe p none a w = tt
  with_link_mode-IsSafe p (some mode) a w =
      attempt-IsSafe v (Sftp.set_symlink_permissions p (mode_bits mode)) _ _ a w tt

  lsetstat-IsSafe :
      (s : SftpSession) (h : ℕ) (mode : Option ℕ) → IsSafe v (Extended.lsetstat v s h mode)
  unfolding Extended.lsetstat
  lsetstat-IsSafe s h mode = when_writable-IsSafe v _ _ (λ a w.
      found-IsSafe v (file_of (get s.handles h)) _ _ (λ p. with_link_mode-IsSafe p mode a w))

  close-IsSafe : (s : SftpSession) (h : ℕ) → IsSafe v (Handles.close s h).1
  unfolding Handles.close
  close-IsSafe s h = tt

-- Whatever a client asks for, every call that its handler makes is made on a server that is not
-- locked, for a user that it knows, who has the permission for the call: `file.read` to list and
-- to hash, `file.delete` to remove, `file.create` to make directories and links,
-- `file.read-content` and `file.create` to copy, `file.update` to rename, to sync and to set the
-- mode behind a handle, `file.update` or `file.create` to set another mode, and the permission for
-- each flag to open a file. Each path that is removed, made, linked, renamed, listed, hashed,
-- opened or copied from, and each whose mode is set by its name, is one that is not ignored as a
-- directory or not as a file. On a read-only server the calls are listings, reads, openings,
-- copies, charges and log entries only.
pub handle-IsSafe :
    (v : View) (l : ReadLimits) (s : SftpSession) (r : Request) → IsSafe v (handle v l s r).1
handle-IsSafe v l s (to_realpath top p) = realpath-IsSafe v top p
handle-IsSafe v l s (to_remove p) = remove-IsSafe v p
handle-IsSafe v l s (to_stat p) = stat-IsSafe v p
handle-IsSafe v l s (to_lstat p) = lstat-IsSafe v p
handle-IsSafe v l s (to_readlink p) = readlink-IsSafe v p
handle-IsSafe v l s (to_rmdir base p) = rmdir-IsSafe v base p
handle-IsSafe v l s (to_rename p q) = rename-IsSafe v p q
handle-IsSafe v l s (to_mkdir p mode) = mkdir-IsSafe v p mode
handle-IsSafe v l s (to_setstat p mode) = setstat-IsSafe v p mode
handle-IsSafe v l s (to_symlink same link p) = symlink-IsSafe v same link p
handle-IsSafe v l s (to_close h) = close-IsSafe v s h
handle-IsSafe v l s (to_readdir h) = readdir-IsSafe v l s h
handle-IsSafe v l s (to_fstat h) = fstat-IsSafe v s h
handle-IsSafe v l s (to_fsync h) = fsync-IsSafe v s h
handle-IsSafe v l s (to_opendir p) = opendir-IsSafe v s p
handle-IsSafe v l s (to_open p f) = open_file-IsSafe v s p f
handle-IsSafe v l s (to_fsetstat h mode) = fsetstat-IsSafe v s h mode
handle-IsSafe v l s (to_lsetstat h mode) = lsetstat-IsSafe v s h mode
handle-IsSafe v l s (to_read h available len) = read-IsSafe v s h available len
handle-IsSafe v l s (to_write h offset count) = write-IsSafe v s h offset count
handle-IsSafe v l s (to_check_file named p h slices) = check_file-IsSafe v s named p h slices
handle-IsSafe v l s (to_copy_file p q overwrite) = copy_file-IsSafe v p q overwrite
handle-IsSafe v l s (to_space_available a b c d) = space_available-IsSafe v a b c d
handle-IsSafe v l s (to_statvfs a b c d) = statvfs-IsSafe v a b c d
handle-IsSafe v l s to_limits = limits_reply-IsSafe v
handle-IsSafe v l s (to_hardlink link p) = hardlink-IsSafe v link p
