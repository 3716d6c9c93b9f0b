-- ===== src/Sftp/Limit.antt =====
-- application/src/ssh/sftp.rs: the number of handles that a session has open.
use cyrogopus.Prelude.{
  ℕ, suc, ◌≤◌, Bool, true, false, Option, none, some, List, [], ◌∷◌, ◌≡◌, refl, ap, arith, ◌==◌,
  inl, inr, leb, length, Bool-cases,
}
use cyrogopus.Cap.{PathBuf}
use cyrogopus.Cap.ReadDir.{Entry}
use cyrogopus.Sftp.{
  View, Out, Reply, StatusCode, done, opened, names, attributes, bytes_read, space, limits, hashed,
  error, OpenFlags, guard, allow_action, permission_denied,
}
use cyrogopus.Sftp.Handles.{
  ServerHandle, file_handle, dir_handle, SftpSession, get, insert, remove, dir_of, add_handle,
  after_open, has_room, opendir_out, ReadLimits, list_handle, list_entries, readdir_found,
  handle_limit,
}
use cyrogopus.Sftp.Handles
use cyrogopus.Sftp.Files
use cyrogopus.Sftp.Files.{open_out}
use cyrogopus.Sftp.Requests.{
  Request, to_realpath, to_remove, to_stat, to_lstat, to_readlink, to_rmdir, to_rename, to_mkdir,
  to_setstat, to_symlink, to_close, to_readdir, to_fstat, to_fsync, to_opendir, to_open,
  to_fsetstat, to_lsetstat, to_read, to_write, to_check_file, to_copy_file, to_space_available,
  to_statvfs, to_limits, to_hardlink, handle, run,
}

abbrev IsBounded : SftpSession → Type 0
IsBounded s = length s.handles ≤ handle_limit

length-insert :
    (m : List (ℕ × ServerHandle)) (h : ℕ) (x : ServerHandle)
    → length (insert m h x) ≤ suc (length m)
unfolding insert
length-insert [] h x = omega arith
length-insert ((k, y) ∷ m) h x = ground (arith, length-insert m h x)

length-insert_present :
    (m : List (ℕ × ServerHandle)) (h : ℕ) (x y : ServerHandle)
    → get m h ≡ some y
    → length (insert m h x) ≡ length m
unfolding insert get
length-insert_present [] h x y e = ground arith
length-insert_present ((k, z) ∷ m) h x y e = elim (Bool-cases (k == h)) [
  | inl s ↦ rw s refl
  | inr s ↦ rw s (ap suc (length-insert_present m h x y (ground arith)))
]

length-remove : (m : List (ℕ × ServerHandle)) (h : ℕ) → length (remove m h) ≤ length m
unfolding remove
length-remove [] h = omega arith
length-remove ((k, y) ∷ m) h = ground (arith, length-remove m h)

-- A reply that opens a handle.
abbrev opens : Reply → Bool
opens (opened h) = true
opens _ = false

guard-opens :
    (b : Bool) (code : StatusCode) (out : Out)
    → opens (guard b code out).1 ≡ true
    → (b ≡ true) × (opens out.1 ≡ true)
guard-opens true code out h = (refl, h)
guard-opens false code out h = ground arith

-- What opens a handle has room for it.
opendir_out-has_room :
    (v : View) (s : SftpSession) (p : PathBuf)
    → opens (opendir_out v s p).1 ≡ true
    → has_room s ≡ true
opendir_out-has_room v s p h =
    (guard-opens (has_room s) _ _ (guard-opens (allow_action v) permission_denied _ h).1).0

open_out-has_room :
    (v : View) (s : SftpSession) (p : PathBuf) (f : OpenFlags)
    → opens (open_out v s p f).1 ≡ true
    → has_room s ≡ true
open_out-has_room v s p f h =
    (guard-opens (has_room s) _ _ (guard-opens (allow_action v) permission_denied _ h).1).0

after_open-IsBounded :
    (s : SftpSession) (x : ServerHandle) (out : Out)
    → IsBounded s
    → (opens out.1 ≡ true → has_room s ≡ true)
    → IsBounded (after_open s x out).0
after_open-IsBounded s x (es, opened h) b k =
    ground (arith, k refl, length-insert s.handles s.handle_id x)
after_open-IsBounded s x (es, done) b k = b
after_open-IsBounded s x (es, names ps) b k = b
after_open-IsBounded s x (es, attributes m) b k = b
after_open-IsBounded s x (es, bytes_read n) b k = b
after_open-IsBounded s x (es, space n m) b k = b
after_open-IsBounded s x (es, limits n m o p) b k = b
after_open-IsBounded s x (es, hashed ns) b k = b
after_open-IsBounded s x (es, error c) b k = b

list_handle-IsBounded :
    (v : View) (l : ReadLimits) (s : SftpSession) (h : ℕ) (p : PathBuf) (es : List Entry) (n : ℕ)
    (x : ServerHandle)
    → get s.handles h ≡ some x
    → IsBounded s
    → IsBounded (list_handle v l s h p es n).0
list_handle-IsBounded v l s h p es n x e b = elim (Bool-cases (leb l.entry_limit n)) [
  | inl c ↦ rw c b
  | inr c ↦ rw c (
      omega (
        arith,
        b,
        length-insert_present s.handles h
            (dir_handle p (list_entries v l p n 0 es).1 (list_entries v l p n 0 es).2) x e,
      ))
]

readdir_found-IsBounded :
    (v : View) (l : ReadLimits) (s : SftpSession) (h : ℕ) (o : Option ServerHandle)
    → get s.handles h ≡ o
    → IsBounded s
    → IsBounded (readdir_found v l s h (dir_of o)).0
readdir_found-IsBounded v l s h none e b = b
readdir_found-IsBounded v l s h (some (file_handle p)) e b = b
readdir_found-IsBounded v l s h (some (dir_handle p es n)) e b =
    list_handle-IsBounded v l s h p es n (dir_handle p es n) e b

readdir-IsBounded :
    (v : View) (l : ReadLimits) (s : SftpSession) (h : ℕ)
    → IsBounded s
    → IsBounded (Handles.readdir v l s h).0
unfolding Handles.readdir
readdir-IsBounded v l s h b = elim (Bool-cases (allow_action v)) [
  | inl e ↦ rw e (readdir_found-IsBounded v l s h (get s.handles h) refl b)
  | inr e ↦ rw e b
]

handle-IsBounded :
    (v : View) (l : ReadLimits) (s : SftpSession) (r : Request)
    → IsBounded s
    → IsBounded (handle v l s r).0
unfolding Handles.close Handles.opendir Files.open_file
handle-IsBounded v l s (to_realpath top p) b = b
handle-IsBounded v l s (to_remove p) b = b
handle-IsBounded v l s (to_stat p) b = b
handle-IsBounded v l s (to_lstat p) b = b
handle-IsBounded v l s (to_readlink p) b = b
handle-IsBounded v l s (to_rmdir base p) b = b
handle-IsBounded v l s (to_rename p q) b = b
handle-IsBounded v l s (to_mkdir p mode) b = b
handle-IsBounded v l s (to_setstat p mode) b = b
handle-IsBounded v l s (to_symlink same link p) b = b
handle-IsBounded v l s (to_close h) b = omega (arith, b, length-remove s.handles h)
handle-IsBounded v l s (to_readdir h) b = readdir-IsBounded v l s h b
handle-IsBounded v l s (to_fstat h) b = b
handle-IsBounded v l s (to_fsync h) b = b
handle-IsBounded v l s (to_opendir p) b =
    after_open-IsBounded s _ (opendir_out v s p) b (opendir_out-has_room v s p)
handle-IsBounded v l s (to_open p f) b =
    after_open-IsBounded s _ (open_out v s (Files.open_path v p) f) b
      (open_out-has_room v s (Files.open_path v p) f)
handle-IsBounded v l s (to_fsetstat h mode) b = b
handle-IsBounded v l s (to_lsetstat h mode) b = b
handle-IsBounded v l s (to_read h available len) b = b
handle-IsBounded v l s (to_write h offset count) b = b
handle-IsBounded v l s (to_check_file named p h slices) b = b
handle-IsBounded v l s (to_copy_file p q overwrite) b = b
handle-IsBounded v l s (to_space_available c d e f) b = b
handle-IsBounded v l s (to_statvfs c d e f) b = b
handle-IsBounded v l s to_limits b = b
handle-IsBounded v l s (to_hardlink link p) b = b

-- A session that starts with at most 32 handles never has more, whatever a client asks for and
-- however the server and the filesystem answer on the way.
pub run-length :
    (l : ReadLimits) (rs : List (View × Request)) (s : SftpSession)
    → length s.handles ≤ handle_limit
    → length (run l s rs).handles ≤ handle_limit
run-length l [] s b = b
run-length l ((v, r) ∷ rs) s b = run-length l rs (handle v l s r).0 (handle-IsBounded v l s r b)
