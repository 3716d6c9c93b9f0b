-- ===== src/Sftp/Extended.antt =====
-- application/src/ssh/sftp.rs: the extended commands. A request that cannot be decoded is refused
-- with BadMessage and not modelled further; the hash itself is that of the hash crates, and what
-- is given to it is a list of the lengths of the slices.
use cyrogopus.Prelude.{
  ℕ, ◌*◌, ◌+◌, ◌-◌, ◌%◌, ◌/◌, Bool, true, false, not, ◌&&◌, ◌||◌, Option, none, some, List, [], ◌∷◌,
  ltb, leb, ◌==◌, if◌then◌else◌,
}
use cyrogopus.Prelude.Words.{add_u64, u64_mod}
use cyrogopus.Permissions.{file_read, file_read_content, file_create, file_update}
use cyrogopus.Activity.{sftp_create}
use cyrogopus.Cap.{pop, PathBuf}
use cyrogopus.Sftp.{
  View, Out, Reply, done, space, limits, hashed, Metadata, Effect, read_file, allocate, copy,
  hard_link, sync_all, log_activity, permission_denied, failure, no_such_file, op_unsupported,
  bad_message, is_file, is_ignored, has_permission, allow_action, refuse, guard, found, attempt,
  then_out, success, when_writable,
}
use cyrogopus.Sftp
use cyrogopus.Sftp.Paths.{mode_bits, same_path, is_linkable}
use cyrogopus.Sftp.Handles.{SftpSession, get, file_of, handle_limit}

-- u64 `-`, which wraps.
abbrev pub sub_u64 : ℕ → ℕ → ℕ
sub_u64 a b = (a + (u64_mod - b)) % u64_mod

-- `bytes`: how much of a chunk is hashed, after `total` bytes with it.
abbrev pub hash_bytes : ℕ → ℕ → ℕ → ℕ
hash_bytes length chunk total =
    if ltb 0 length
    then (if ltb length total then sub_u64 length (sub_u64 total chunk) else chunk)
    else chunk

abbrev pub cons_slice : ℕ → Option (List ℕ) → Option (List ℕ)
cons_slice n none = none
cons_slice n (some ns) = some (n ∷ ns)

-- The loop over the chunks that the file gives, after `total` bytes: the lengths of the slices that
-- are hashed, `none` where a slice is longer than its chunk and the handler panics.
unfoldable pub hash_loop : ℕ → ℕ → List ℕ → Option (List ℕ)
hash_loop length total [] = some []
hash_loop length total (chunk ∷ chunks) =
    let n = hash_bytes length chunk (add_u64 total chunk) in
    let rest = hash_loop length (add_u64 total chunk) chunks in
    if leb n chunk then cons_slice n rest else none

-- The path that check-file hashes: one that is named, or that of a handle.
abbrev pub check_path : SftpSession → Bool → PathBuf → ℕ → Option PathBuf
check_path s by_name name h = if by_name then some name else file_of (get s.handles h)

-- The match on the algorithm. `slices` is what `hash_loop` answers, where it does not panic, and
-- `none` for an algorithm that is not known.
abbrev pub hash_reply : Option (List ℕ) → Out
hash_reply none = refuse bad_message
hash_reply (some slices) = ([], hashed slices)

abbrev pub check_found : View → PathBuf → Option (List ℕ) → Option Metadata → Out
check_found v path slices none = refuse op_unsupported
check_found v path slices (some m) = guard (is_file m) no_such_file (
    guard (not (is_ignored v path (Sftp.is_dir m))) no_such_file
      (attempt v (read_file path) no_such_file (hash_reply slices)))

unfoldable pub check_file : View → SftpSession → Bool → PathBuf → ℕ → Option (List ℕ) → Out
check_file v s by_name name h slices = guard (allow_action v) permission_denied (
    guard (has_permission v file_read) permission_denied (
      found (check_path s by_name name h) no_such_file (λ file_name.
        found (v.canonicalize file_name) no_such_file
          (λ path. check_found v path slices (v.symlink_metadata path)))))

-- What stands at the destination, where it can be looked up.
abbrev pub is_overwritable : Option Metadata → Bool → Bool
is_overwritable none overwrite = true
is_overwritable (some m) overwrite = is_file m || overwrite

unfoldable pub copy_file : View → PathBuf → PathBuf → Bool → Out
copy_file v name destination overwrite = guard (allow_action v) permission_denied (
    guard (has_permission v file_read_content && has_permission v file_create) permission_denied (
      found (v.canonicalize name) no_such_file (λ source.
        found (v.symlink_metadata source) no_such_file (λ m. guard (is_file m) no_such_file (
          guard (not (is_ignored v source false)) no_such_file (
            guard (is_overwritable (v.metadata destination) overwrite) no_such_file (
              attempt v (allocate (pop destination) m.len) failure (
                attempt v (copy source destination) no_such_file
                  (then_out (log_activity sftp_create destination) success)))))))))

-- The total and the free space: the host's disk where the server has no limit.
abbrev pub space_of : ℕ → ℕ → ℕ → ℕ → ℕ × ℕ
space_of limit usage disk_total disk_free =
    if limit == 0 then (disk_total, disk_free) else (limit, sub_u64 limit usage)

unfoldable pub space_available : View → ℕ → ℕ → ℕ → ℕ → Out
space_available v limit usage disk_total disk_free =
    let (total, free) = space_of limit usage disk_total disk_free in
    guard (allow_action v) permission_denied ([], space total free)

-- The reply to limits@openssh.com.
unfoldable pub limits_reply : View → Out
limits_reply v =
    guard (allow_action v) permission_denied
      ([], limits (32 * 1024) (128 * 1024) (128 * 1024) handle_limit)

-- In blocks of 4096 bytes.
unfoldable pub statvfs : View → ℕ → ℕ → ℕ → ℕ → Out
statvfs v limit usage disk_total disk_free =
    let (total, free) = space_of limit usage disk_total disk_free in
    guard (allow_action v) permission_denied ([], space (total / 4096) (free / 4096))

abbrev pub hardlink_found : View → PathBuf → PathBuf → Out
hardlink_found v link target_name = guard (not (same_path link target_name)) no_such_file (
    found (v.canonicalize target_name) no_such_file (λ target.
      found (v.symlink_metadata target) no_such_file (λ m.
        guard (is_linkable v target link m) no_such_file (
          attempt v (hard_link target link) failure
            (then_out (log_activity sftp_create link) success)))))

unfoldable pub hardlink : View → PathBuf → PathBuf → Out
hardlink v link target_name = when_writable v file_create (hardlink_found v link target_name)

unfoldable pub fsync : View → SftpSession → ℕ → Out
fsync v s h = when_writable v file_update (
    found (file_of (get s.handles h)) no_such_file
      (λ path. attempt v (sync_all path) failure success))

abbrev pub with_link_mode : View → PathBuf → Option ℕ → Out
with_link_mode v path none = success
with_link_mode v path (some mode) =
    attempt v (Sftp.set_symlink_permissions path (mode_bits mode)) failure success

unfoldable pub lsetstat : View → SftpSession → ℕ → Option ℕ → Out
lsetstat v s h mode =
    when_writable v file_update
      (found (file_of (get s.handles h)) no_such_file (λ path. with_link_mode v path mode))
