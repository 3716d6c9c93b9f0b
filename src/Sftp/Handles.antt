-- ===== src/Sftp/Handles.antt =====
-- application/src/ssh/sftp.rs: the handlers of requests that make or use a handle.
use cyrogopus.Prelude.{
  ℕ, String, suc, Bool, true, false, not, ◌||◌, Option, none, some, List, [], ◌∷◌, ◌++◌, ◌==◌, leb,
  ltb, if◌then◌else◌, length,
}
use cyrogopus.Prelude.Words.{add_u64}
use cyrogopus.Permissions.{file_read}
use cyrogopus.Cap.{normal, PathBuf}
use cyrogopus.Cap.ReadDir.{Entry}
use cyrogopus.Sftp.{
  View, Out, Reply, opened, names, error, read_dir_of, permission_denied, failure, no_such_file,
  eof, is_dir, is_ignored, has_permission, allow_action, refuse, guard, found, attempt, success,
}

pub data ServerHandle : Type 0 where
  file_handle : PathBuf → ServerHandle
  dir_handle : PathBuf → List Entry → ℕ → ServerHandle  -- the entries to come, and `consumed`

abbrev pub handle_path : ServerHandle → PathBuf
handle_path (file_handle p) = p
handle_path (dir_handle p es n) = p

abbrev pub handle_limit : ℕ
handle_limit = 32

-- The handles are a map by their numbers.
pub record SftpSession : Type 0 where
  pub handle_id : ℕ  -- u64
  pub handles : List (ℕ × ServerHandle)

unfoldable pub get : List (ℕ × ServerHandle) → ℕ → Option ServerHandle
get [] h = none
get ((k, x) ∷ m) h = if k == h then some x else get m h

unfoldable pub insert : List (ℕ × ServerHandle) → ℕ → ServerHandle → List (ℕ × ServerHandle)
insert [] h x = (h, x) ∷ []
insert ((k, y) ∷ m) h x = if k == h then (h, x) ∷ m else (k, y) ∷ insert m h x

unfoldable pub remove : List (ℕ × ServerHandle) → ℕ → List (ℕ × ServerHandle)
remove [] h = []
remove ((k, y) ∷ m) h = let rest = remove m h in if k == h then rest else (k, y) ∷ rest

-- A handle for a file, and one for a directory only.
abbrev pub file_of : Option ServerHandle → Option PathBuf
file_of (some (file_handle p)) = some p
file_of _ = none

abbrev pub dir_of : Option ServerHandle → Option (PathBuf × List Entry × ℕ)
dir_of (some (dir_handle p es n)) = some (p, es, n)
dir_of _ = none

unfoldable pub close : SftpSession → ℕ → SftpSession × Out
close s h = (record s { handles = remove s.handles h }, success)

-- `next_handle_id`, and the insertion of the handle.
abbrev pub add_handle : SftpSession → ServerHandle → SftpSession
add_handle s x = record {
  handle_id = add_u64 s.handle_id 1;
  handles = insert s.handles s.handle_id x;
}

-- What a session becomes with the reply that opens a handle.
abbrev pub after_open : SftpSession → ServerHandle → Out → SftpSession × Out
after_open s x (es, opened h) = (add_handle s x, (es, opened h))
after_open s x (es, r) = (s, (es, r))

abbrev pub has_room : SftpSession → Bool
has_room s = ltb (length s.handles) handle_limit

abbrev pub opendir_out : View → SftpSession → PathBuf → Out
opendir_out v s name = guard (allow_action v) permission_denied (
    guard (has_room s) failure (
      guard (has_permission v file_read) permission_denied (
        found (v.canonicalize name) no_such_file (λ path.
          guard (not (is_ignored v path true)) no_such_file
            (attempt v (read_dir_of path) no_such_file ([], opened s.handle_id))))))

-- The path of a handle, where the request gets that far.
abbrev pub path_or_empty : Option PathBuf → PathBuf
path_or_empty none = []
path_or_empty (some p) = p

unfoldable pub opendir : View → SftpSession → PathBuf → SftpSession × Out
opendir v s name =
    let path = path_or_empty (v.canonicalize name) in
    after_open s (dir_handle path (v.entries path) 0) (opendir_out v s name)

-- The limits of the configuration on the entries of a directory: in all, and in one reply.
pub record ReadLimits : Type 0 where
  pub entry_limit : ℕ
  pub send_amount : ℕ

-- `handle.path.join(file)`.
abbrev pub join : PathBuf → String → PathBuf
join p name = p ++ (normal name ∷ [])

-- Whether an entry is listed.
abbrev pub is_listed : View → PathBuf → Bool
is_listed v p = elim (v.symlink_metadata p) [
  | none ↦ false
  | some m ↦ not (is_ignored v p (is_dir m))
]

abbrev pub cons_first : PathBuf → List PathBuf × List Entry × ℕ → List PathBuf × List Entry × ℕ
cons_first p (ps, es, n) = (p ∷ ps, es, n)

-- The loop of readdir, after `sent` entries: the paths still to send, the entries left, and the
-- entries consumed.
unfoldable pub list_entries :
    View → ReadLimits → PathBuf → ℕ → ℕ → List Entry → List PathBuf × List Entry × ℕ
list_entries v l p consumed sent [] = ([], [], consumed)
list_entries v l p consumed sent (none ∷ es) = ([], es, consumed)
list_entries v l p consumed sent (some (d, name) ∷ es) = elim (is_listed v (join p name)) [
  | false ↦ list_entries v l p consumed sent es
  | true ↦ elim (leb l.entry_limit (suc consumed) || leb l.send_amount (suc sent)) [
    | true ↦ (join p name ∷ [], es, suc consumed)
    | false ↦ cons_first (join p name) (list_entries v l p (suc consumed) (suc sent) es)
  ]
]

abbrev pub listing_reply : List PathBuf → Reply
listing_reply [] = error eof
listing_reply (p ∷ ps) = names (p ∷ ps)

abbrev pub list_handle :
    View → ReadLimits → SftpSession → ℕ → PathBuf → List Entry → ℕ → SftpSession × Out
list_handle v l s h p es consumed =
    let (files, rest, n) = list_entries v l p consumed 0 es in
    if leb l.entry_limit consumed then (s, refuse eof) else (
      record s { handles = insert s.handles h (dir_handle p rest n) },
      ([], listing_reply files),
    )

abbrev pub readdir_found :
    View → ReadLimits → SftpSession → ℕ → Option (PathBuf × List Entry × ℕ) → SftpSession × Out
readdir_found v l s h none = (s, refuse no_such_file)
readdir_found v l s h (some (p, es, consumed)) = list_handle v l s h p es consumed

unfoldable pub readdir : View → ReadLimits → SftpSession → ℕ → SftpSession × Out
readdir v l s h =
    if allow_action v
    then readdir_found v l s h (dir_of (get s.handles h))
    else (s, refuse permission_denied)
