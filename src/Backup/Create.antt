-- ===== src/Backup/Create.antt =====
-- application/src/server/backup/manager.rs: the creation of a backup. Of a created backup only
-- whether it is successful is kept.
use cyrogopus.Prelude.{
  ℕ, String, Bool, true, false, not, ◌&&◌, ◌||◌, List, [], ◌∷◌, ◌++◌, Option, none, some, ◌==◌, ◌≡◌,
  refl, arith, any, if◌then◌else◌, Option-cases, inl, inr, unwrap_or,
}
use cyrogopus.Backup.{
  BackupAdapter, wings, s3, ddup_bak, btrfs, zfs, restic, BackupManager, learn, fast_contains,
}
use cyrogopus.Backup.Cache.{get}

-- The calls: the progress messages are sent by a task that is started and aborted.
pub data Effect : Type 0 where
  start_progress abort_progress : Effect
  create_with : BackupAdapter → ℕ → List String → Effect
  set_backup_status send_completed : ℕ → Bool → Effect
  clean : BackupAdapter → ℕ → Effect

-- `is_line` is whether the builder of the ignore list takes a line, and `builds` whether it builds
-- the list. `created` is the adapter's answer, `none` for its error; the last two are the panel's
-- and the websocket's.
pub record View : Type 0 where
  pub is_line : String → Bool
  pub builds : List String → Bool
  pub pteroignore : Option (List String)
  pub file_denylist : List String
  pub created : Option Bool
  pub status_taken : Bool → Bool
  pub sent : Bool → Bool

-- The manager, the backups of the server's configuration, the calls, and whether it is a success.
pub record Created : Type 0 where
  pub manager : BackupManager
  pub backups : List ℕ
  pub effects : List Effect
  pub is_ok : Bool

unfoldable pub accepted : (String → Bool) → List String → List String
accepted p [] = []
accepted p (l ∷ ls) = let rest = accepted p ls in if p l then l ∷ rest else rest

-- The lines of the ignore list: those of the caller, of the server's file, of its egg.
abbrev pub ignore_lines : View → List String → List String
ignore_lines v ignore =
    accepted v.is_line ignore
    ++ accepted v.is_line (unwrap_or v.pteroignore [])
    ++ accepted v.is_line v.file_denylist

abbrev created_failed : BackupManager → List ℕ → List Effect → Created
created_failed m backups effects = record {
  manager = m;
  backups = backups;
  effects = effects;
  is_ok = false;
}

-- After an error of the adapter, with the calls before.
abbrev pub after_error : View → BackupManager → List ℕ → BackupAdapter → ℕ → List Effect → Created
after_error v m backups adapter u before =
    if not (v.status_taken false)
    then created_failed m backups (before ++ set_backup_status u false ∷ [])
    else if not (v.sent false)
    then created_failed m backups
        (before ++ set_backup_status u false ∷ send_completed u false ∷ [])
    else created_failed (learn m u adapter) backups
        (before ++ set_backup_status u false ∷ send_completed u false ∷ clean adapter u ∷ [])

abbrev pub after_created :
    View → BackupManager → List ℕ → BackupAdapter → ℕ → List Effect → Bool → Created
after_created v m backups adapter u before successful =
    if not (v.status_taken successful)
    then created_failed m backups (before ++ set_backup_status u successful ∷ [])
    else if not (v.sent successful)
    then created_failed m backups
        (before ++ set_backup_status u successful ∷ send_completed u successful ∷ [])
    else record {
      manager = learn m u adapter;
      backups = backups ++ u ∷ [];
      effects = before ++ set_backup_status u successful ∷ send_completed u successful ∷ [];
      is_ok = true;
    }

abbrev pub after_adapter :
    View → BackupManager → List ℕ → BackupAdapter → ℕ → List Effect → Option Bool → Created
after_adapter v m backups adapter u before none = after_error v m backups adapter u before
after_adapter v m backups adapter u before (some successful) =
    after_created v m backups adapter u before successful

unfoldable pub create : View → BackupManager → List ℕ → BackupAdapter → ℕ → List String → Created
create v m backups adapter u ignore =
    let lines = ignore_lines v ignore in
    if not (v.builds lines)
    then created_failed m backups (start_progress ∷ [])
    else after_adapter v m backups adapter u
        (start_progress ∷ create_with adapter u lines ∷ abort_progress ∷ []) v.created

abbrev pub is_abort : Effect → Bool
is_abort abort_progress = true
is_abort _ = false

abbrev pub same_adapter : BackupAdapter → BackupAdapter → Bool
same_adapter wings wings = true
same_adapter s3 s3 = true
same_adapter ddup_bak ddup_bak = true
same_adapter btrfs btrfs = true
same_adapter zfs zfs = true
same_adapter restic restic = true
same_adapter _ _ = false

same_adapter_refl : (a : BackupAdapter) → same_adapter a a ≡ true
same_adapter_refl wings = refl
same_adapter_refl _ = refl

abbrev pub is_adapter : BackupAdapter → Option BackupAdapter → Bool
is_adapter a none = false
is_adapter a (some b) = same_adapter a b

any-append :
    (u w : ℕ) (xs : List ℕ) → any (λ v. v == w) (xs ++ u ∷ []) ≡ (any (λ v. v == w) xs || u == w)
any-append u w [] = ground arith
any-append u w (x ∷ xs) = ground (arith, any-append u w xs)

-- A call that succeeds adds its backup, and no other, to those that the manager knows of, and keeps
-- its adapter; a call that fails, also one whose backup exists but whose report is not taken, adds
-- none. The task that sends the progress is stopped exactly if the ignore list can be built.
pub create-fast_contains :
    (v : View) (m : BackupManager) (backups : List ℕ) (adapter : BackupAdapter) (u w : ℕ)
    (ignore : List String)
    → (fast_contains
          (create v m backups adapter u ignore).manager
          (create v m backups adapter u ignore).backups
          w
        ≡ (fast_contains m backups w || ((create v m backups adapter u ignore).is_ok && u == w)))
      × ((not (create v m backups adapter u ignore).is_ok
            || is_adapter adapter
                (get u (create v m backups adapter u ignore).manager.cached_backup_adapters))
          ≡ true)
      × (any is_abort (create v m backups adapter u ignore).effects
          ≡ v.builds (ignore_lines v ignore))
unfolding create fast_contains get
create-fast_contains v m backups adapter u w ignore = elim (Option-cases v.created) [
  | inl e ↦ ground (arith, e)
  | inr (successful, e) ↦ ground (arith, e, any-append u w backups, same_adapter_refl adapter)
]
