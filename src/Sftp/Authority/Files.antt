-- ===== src/Sftp/Authority/Files.antt =====
-- application/src/ssh/sftp.rs: the handlers of requests that use handles and of the extended
-- commands, one by one.
use cyrogopus.Prelude.{
  ℕ, Bool, true, false, not, Option, none, some, List, [], ◌≡◌, arith, if◌then◌else◌, leb,
}
use cyrogopus.Permissions.{file_read}
use cyrogopus.Activity.{ActivityEvent}
use cyrogopus.Cap.{PathBuf, pop}
use cyrogopus.Cap.ReadDir.{Entry}
use cyrogopus.Sftp.{
  View, Out, done, opened, names, attributes, bytes_read, space, limits, hashed, error, eof,
  OpenFlags, read_dir_of, open_with, read_at, write_at, allocate, is_ignored, has_permission,
  allow_action, refuse, permission_denied,
}
use cyrogopus.Sftp.Handles
use cyrogopus.Sftp.Handles.{
  ServerHandle, handle_path, SftpSession, get, file_of, dir_of, has_room, after_open, opendir_out,
  path_or_empty, ReadLimits, list_handle, list_entries, listing_reply, readdir_found,
}
use cyrogopus.Sftp.Files
use cyrogopus.Sftp.Files.{
  open_path, open_out, may_update, may_create, may_truncate, may_read, is_openable, open_event,
  log_open,
}
use cyrogopus.Sftp.Authority.{
  IsSafe, guard-IsSafe, found-IsSafe, attempt-IsSafe, if-IsSafe, IsVisible-not,
}
use cyrogopus.Sftp.Authority.Paths.{setstat-IsSafe, stat-IsSafe}

module _ (v : View) where
  after_open-IsSafe :
      (s : SftpSession) (x : ServerHandle) (out : Out)
      → IsSafe v out
      → IsSafe v (after_open s x out).1
  after_open-IsSafe s x (es, opened h) k = k
  after_open-IsSafe s x (es, done) k = k
  after_open-IsSafe s x (es, names ps) k = k
  after_open-IsSafe s x (es, attributes m) k = k
  after_open-IsSafe s x (es, bytes_read n) k = k
  after_open-IsSafe s x (es, space n m) k = k
  after_open-IsSafe s x (es, limits a b c d) k = k
  after_open-IsSafe s x (es, hashed ns) k = k
  after_open-IsSafe s x (es, error c) k = k

  pub opendir-IsSafe : (s : SftpSession) (p : PathBuf) → IsSafe v (Handles.opendir v s p).1
  unfolding Handles.opendir
  opendir-IsSafe s p = after_open-IsSafe s _ (opendir_out v s p) (
      guard-IsSafe v (allow_action v) _ _ (λ a. guard-IsSafe v (has_room s) _ _ (λ r.
        guard-IsSafe v (has_permission v file_read) _ _ (λ q.
          found-IsSafe v (v.canonicalize p) _ _ (λ path.
            guard-IsSafe v (not (is_ignored v path true)) _ _ (λ i.
              attempt-IsSafe v (read_dir_of path) _ _ a (q, IsVisible-not v path true i) tt))))))

  branch-IsSafe :
      (b : Bool) (x y : SftpSession × Out)
      → IsSafe v x.1
      → IsSafe v y.1
      → IsSafe v (if b then x else y).1
  branch-IsSafe true x y h k = h
  branch-IsSafe false x y h k = k

  list_handle-IsSafe :
      (l : ReadLimits) (s : SftpSession) (h : ℕ) (p : PathBuf) (es : List Entry) (n : ℕ)
      → IsSafe v (list_handle v l s h p es n).1
  list_handle-IsSafe l s h p es n = branch-IsSafe (leb l.entry_limit n) _ _ tt tt

  readdir_found-IsSafe :
      (l : ReadLimits) (s : SftpSession) (h : ℕ) (o : Option (PathBuf × List Entry × ℕ))
      → IsSafe v (readdir_found v l s h o).1
  readdir_found-IsSafe l s h none = tt
  readdir_found-IsSafe l s h (some (p, es, n)) = list_handle-IsSafe l s h p es n

  pub readdir-IsSafe :
      (l : ReadLimits) (s : SftpSession) (h : ℕ) → IsSafe v (Handles.readdir v l s h).1
  unfolding Handles.readdir
  readdir-IsSafe l s h =
      branch-IsSafe (allow_action v) (readdir_found v l s h (dir_of (get s.handles h)))
        (s, refuse permission_denied) (readdir_found-IsSafe l s h (dir_of (get s.handles h))) tt

  log_open-IsSafe :
      (o : Option ActivityEvent) (p : PathBuf) (out : Out)
      → allow_action v ≡ true
      → IsSafe v out
      → IsSafe v (log_open o p out)
  log_open-IsSafe none p out a h = h
  log_open-IsSafe (some e) p out a h = ((a, tt), h)

  pub open_file-IsSafe :
      (s : SftpSession) (p : PathBuf) (f : OpenFlags) → IsSafe v (Files.open_file v s p f).1
  unfolding Files.open_file
  open_file-IsSafe s p f =
      let path = open_path v p in
      after_open-IsSafe s _ (open_out v s path f) (
        guard-IsSafe v (allow_action v) _ _ (λ a. guard-IsSafe v (has_room s) _ _ (λ r.
          guard-IsSafe v (may_update v f) _ _ (λ u. guard-IsSafe v (may_create v f) _ _ (λ c.
            guard-IsSafe v (may_truncate v f) _ _ (λ t. guard-IsSafe v (may_read v f) _ _ (λ q.
              guard-IsSafe v (is_openable f (v.symlink_metadata path)) _ _ (λ o.
                guard-IsSafe v (not (is_ignored v path false)) _ _ (λ i.
                  attempt-IsSafe v (open_with path f) _ _ a
                    (u, c, t, q, IsVisible-not v path false i)
                    (log_open-IsSafe (open_event f) path _ a tt))))))))))

  pub fsetstat-IsSafe :
      (s : SftpSession) (h : ℕ) (mode : Option ℕ) → IsSafe v (Files.fsetstat v s h mode)
  unfolding Files.fsetstat
  fsetstat-IsSafe s h mode =
      guard-IsSafe v (allow_action v) _ _
        (λ a. found-IsSafe v (file_of (get s.handles h)) _ _ (λ p. setstat-IsSafe v p mode))

  pub fstat-IsSafe : (s : SftpSession) (h : ℕ) → IsSafe v (Files.fstat v s h)
  unfolding Files.fstat
  fstat-IsSafe s h =
      guard-IsSafe v (allow_action v) _ _
        (λ a. found-IsSafe v (get s.handles h) _ _ (λ x. stat-IsSafe v (handle_path x)))

  pub read-IsSafe :
      (s : SftpSession) (h available len : ℕ) → IsSafe v (Files.read v s h available len)
  unfolding Files.read
  read-IsSafe s h available len = guard-IsSafe v (allow_action v) _ _ (λ a.
      found-IsSafe v (file_of (get s.handles h)) _ _ (λ p.
        attempt-IsSafe v (read_at p) _ _ a tt
          (if-IsSafe v _ (refuse eof) ([], bytes_read _) tt tt)))

  pub write-IsSafe :
      (s : SftpSession) (h offset count : ℕ) → IsSafe v (Files.write v s h offset count)
  unfolding Files.write
  write-IsSafe s h offset count = guard-IsSafe v (allow_action v) _ _ (λ a.
      found-IsSafe v (file_of (get s.handles h)) _ _ (λ p.
        guard-IsSafe v (not v.read_only) _ _ (λ r.
          attempt-IsSafe v (allocate (pop p) count) _ _ a tt
            (attempt-IsSafe v (write_at p offset count) _ _ a (ground (arith, r)) tt))))
