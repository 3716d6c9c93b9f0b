-- ===== src/Sftp/Authority/Paths.antt =====
-- application/src/ssh/sftp.rs: the handlers of requests that name a path, one by one.
use cyrogopus.Prelude.{
  ℕ, Bool, true, false, not, ◌||◌, Option, none, some, ◌≡◌, arith, unwrap_or, [], ◌∷◌, is_some,
}
use cyrogopus.Permissions.{file_create, file_update}
use cyrogopus.Cap.{PathBuf}
use cyrogopus.Sftp.{
  View, Out, no_such_file, attributes, names, Metadata, Effect, truncate_path, create_dir,
  chown_path, rename_path, is_dir, is_file, is_ignored, has_permission, allow_action, then_out,
  success, guard,
}
use cyrogopus.Sftp
use cyrogopus.Sftp.Paths
use cyrogopus.Sftp.Paths.{
  remove_found, rmdir_found, with_mode, rename_blocked, same_path, is_linkable, mode_bits,
}
use cyrogopus.Sftp.Authority.{
  IsSafe, IsVisible, guard-IsSafe, found-IsSafe, attempt-IsSafe, if-IsSafe, when_writable-IsSafe,
  when_readable-IsSafe, IsVisible-not, reply-IsSafe,
}

module _ (v : View) where
  pub realpath-IsSafe : (top : Bool) (p : PathBuf) → IsSafe v (Paths.realpath v top p)
  unfolding Paths.realpath
  realpath-IsSafe top p = if-IsSafe v top _ _ tt (found-IsSafe v (v.canonicalize p) _ _ (λ q. tt))

  pub remove-IsSafe : (p : PathBuf) → IsSafe v (Paths.remove v p)
  unfolding Paths.remove
  remove-IsSafe p = when_writable-IsSafe v _ _ (λ a w.
      let path = unwrap_or (v.canonicalize p) p in
      elim (v.symlink_metadata path)
        as (λ o. IsSafe v (elim o [ none ↦ success | some m ↦ remove_found v path m ])) [
          | none ↦ tt
          | some m ↦ guard-IsSafe v (not (is_dir m)) _ _ (λ d.
              guard-IsSafe v (not (is_ignored v path (is_dir m))) _ _ (λ i.
                attempt-IsSafe v (truncate_path path) _ _ a (w, IsVisible-not v path (is_dir m) i)
                  ((a, tt), tt)))
        ])

  pub rmdir-IsSafe : (base p : PathBuf) → IsSafe v (Paths.rmdir v base p)
  unfolding Paths.rmdir
  rmdir-IsSafe base p = when_writable-IsSafe v _ _ (λ a w.
      found-IsSafe v (v.canonicalize p) _ _ (λ path.
        elim (v.symlink_metadata path)
          as (λ o. IsSafe v (elim o [ none ↦ success | some m ↦ rmdir_found v base path m ])) [
            | none ↦ tt
            | some m ↦ guard-IsSafe v (is_dir m) _ _ (λ d.
                guard-IsSafe v (not (is_ignored v path true)) _ _ (λ i.
                  if-IsSafe v (same_path path base) _ _ ((a, tt), tt)
                    (attempt-IsSafe v (truncate_path path) _ _ a (w, IsVisible-not v path true i)
                      ((a, tt), tt))))
          ]))

  with_mode-IsSafe :
      (p : PathBuf) (mode : Option ℕ) (out : Out)
      → allow_action v ≡ true
      → v.read_only ≡ false
      → (has_permission v file_update || has_permission v file_create) ≡ true
      → IsVisible v p
      → IsSafe v out
      → IsSafe v (with_mode v p mode out)
  with_mode-IsSafe p none out a r h i rest = rest
  with_mode-IsSafe p (some mode) out a r h i rest =
      attempt-IsSafe v (Sftp.set_permissions p (mode_bits mode)) _ _ a (r, h, i) rest

  pub mkdir-IsSafe : (p : PathBuf) (mode : Option ℕ) → IsSafe v (Paths.mkdir v p mode)
  unfolding Paths.mkdir
  mkdir-IsSafe p mode = when_writable-IsSafe v _ _ (λ a w.
      guard-IsSafe v (not (is_ignored v p true)) _ _ (λ i.
        let seen = IsVisible-not v p true i in
        if-IsSafe v (is_some (v.symlink_metadata p)) _ _ tt (
          attempt-IsSafe v (create_dir p) _ _ a (w, seen)
            (attempt-IsSafe v (chown_path p) _ _ a (w, seen)
              (with_mode-IsSafe p mode _ a w.0 (ground (arith, w.1)) seen ((a, tt), tt))))))

  pub rename-IsSafe : (p q : PathBuf) → IsSafe v (Paths.rename v p q)
  unfolding Paths.rename
  rename-IsSafe p q = when_writable-IsSafe v _ _ (λ a w.
      found-IsSafe v (v.canonicalize p) _ _ (λ path.
        found-IsSafe v (v.symlink_metadata path) _ _ (λ m.
          guard-IsSafe v (not (rename_blocked v path q m)) _ _ (λ i.
            attempt-IsSafe v (rename_path path q) _ _ a
              (w, (is_dir m, ground (arith, i)), (is_dir m, ground (arith, i))) ((a, tt), tt)))))

  pub setstat-IsSafe : (p : PathBuf) (mode : Option ℕ) → IsSafe v (Paths.setstat v p mode)
  unfolding Paths.setstat
  setstat-IsSafe p mode = when_writable-IsSafe v _ _ (λ a w.
      found-IsSafe v (v.canonicalize p) _ _ (λ path.
        found-IsSafe v (v.symlink_metadata path) _ _ (λ m.
          guard-IsSafe v (not (is_ignored v path (is_dir m))) _ _ (λ i.
            with_mode-IsSafe path mode _ a w.0 (ground (arith, w.1))
              (IsVisible-not v path (is_dir m) i) tt))))

  pub stat-IsSafe : (p : PathBuf) → IsSafe v (Paths.stat v p)
  unfolding Paths.stat
  stat-IsSafe p = when_readable-IsSafe v _ _ (λ a q. found-IsSafe v (v.canonicalize p) _ _ (λ path.
      found-IsSafe v (v.metadata path) _ _
        (λ m. reply-IsSafe v (not (is_ignored v path (is_dir m))) no_such_file (attributes m))))

  pub lstat-IsSafe : (p : PathBuf) → IsSafe v (Paths.lstat v p)
  unfolding Paths.lstat
  lstat-IsSafe p = when_readable-IsSafe v _ _ (λ a q.
      found-IsSafe v (v.symlink_metadata p) _ _
        (λ m. reply-IsSafe v (not (is_ignored v p (is_dir m))) no_such_file (attributes m)))

  pub readlink-IsSafe : (p : PathBuf) → IsSafe v (Paths.readlink v p)
  unfolding Paths.readlink
  readlink-IsSafe p = when_readable-IsSafe v _ _ (λ a q. found-IsSafe v (v.read_link p) _ _ (λ path.
      found-IsSafe v (v.symlink_metadata path) _ _ (λ m.
        reply-IsSafe v (not (is_ignored v path (is_dir m))) no_such_file (names (path ∷ [])))))

  -- What a link may be made of is visible, and so is its place.
  pub is_linkable-IsVisible :
      (target link : PathBuf) (m : Metadata)
      → is_linkable v target link m ≡ true
      → IsVisible v target × IsVisible v link
  is_linkable-IsVisible target link m h =
      ((is_dir m, ground (arith, h)), (false, ground (arith, h)))

  pub symlink-IsSafe : (same : Bool) (link p : PathBuf) → IsSafe v (Paths.symlink v same link p)
  unfolding Paths.symlink
  symlink-IsSafe same link p = when_writable-IsSafe v _ _ (λ a w.
      guard-IsSafe v (not same) _ _ (λ n. found-IsSafe v (v.canonicalize p) _ _ (λ target.
        found-IsSafe v (v.symlink_metadata target) _ _ (λ m.
          guard-IsSafe v (is_linkable v target link m) _ _ (λ i.
            let seen = is_linkable-IsVisible target link m i in
            attempt-IsSafe v (Sftp.symlink target link) _ _ a (w, seen.0, seen.1) ((a, tt), tt))))))
