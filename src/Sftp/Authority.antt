-- ===== src/Sftp/Authority.antt =====
-- application/src/ssh/sftp.rs: the calls of the handlers against the permissions of the user.
pub mod Paths
pub mod Files
pub mod Commands
use cyrogopus.Prelude.{
  ℕ, Bool, true, false, not, ◌&&◌, ◌||◌, Option, none, some, List, [], ◌∷◌, ◌≡◌, inl, inr, refl,
  arith, if◌then◌else◌, All, Bool-cases, Option-cases, unwrap_or, is_some,
}
use cyrogopus.Permissions.{
  file_read, file_read_content, file_create, file_update, file_delete, Permission,
}
use cyrogopus.Activity.{ActivityEvent}
use cyrogopus.Cap.{PathBuf}
use cyrogopus.Sftp.{
  View, Out, Reply, StatusCode, Metadata, OpenFlags, Effect, read_dir_of, truncate_path, create_dir,
  chown_path, read_file, sync_all, read_at, set_permissions, set_symlink_permissions, rename_path,
  symlink, hard_link, copy, open_with, allocate, write_at, log_activity, is_dir, is_file,
  is_ignored, has_permission, allow_action, refuse, guard, found, attempt, then_out, success,
  when_writable, when_readable,
}

-- A path is visible when it is not ignored, as a directory or as a file.
abbrev pub IsVisible : View → PathBuf → Type 0
IsVisible v p = (d : Bool) × (is_ignored v p d ≡ false)

abbrev pub Writable : View → Permission → Type 0
Writable v p = (v.read_only ≡ false) × (has_permission v p ≡ true)

-- The permission for a flag that is set.
abbrev pub Needs : View → Bool → Permission → Type 0
Needs v flag p = (not flag || has_permission v p) ≡ true

-- What each call asks of the user. A handle was opened with the permissions that its flags ask for.
abbrev pub IsAllowed : View → Effect → Type 0
IsAllowed v (read_dir_of p) = (has_permission v file_read ≡ true) × IsVisible v p
IsAllowed v (truncate_path p) = Writable v file_delete × IsVisible v p
IsAllowed v (create_dir p) = Writable v file_create × IsVisible v p
IsAllowed v (chown_path p) = Writable v file_create × IsVisible v p
IsAllowed v (read_file p) = (has_permission v file_read ≡ true) × IsVisible v p
IsAllowed v (sync_all p) = Writable v file_update
IsAllowed v (read_at p) = Unit
IsAllowed v (set_permissions p mode) =
    (v.read_only ≡ false)
    × ((has_permission v file_update || has_permission v file_create) ≡ true)
    × IsVisible v p
IsAllowed v (set_symlink_permissions p mode) = Writable v file_update
IsAllowed v (rename_path p q) = Writable v file_update × IsVisible v p × IsVisible v q
IsAllowed v (symlink p q) = Writable v file_create × IsVisible v p × IsVisible v q
IsAllowed v (hard_link p q) = Writable v file_create × IsVisible v p × IsVisible v q
IsAllowed v (copy p q) =
    (has_permission v file_read_content ≡ true)
    × (has_permission v file_create ≡ true)
    × IsVisible v p
IsAllowed v (open_with p f) =
    Needs v (f.write_flag || f.append_flag) file_update
    × Needs v f.create_flag file_create
    × Needs v f.truncate_flag file_delete
    × Needs v f.read_flag file_read_content
    × IsVisible v p
IsAllowed v (allocate p n) = Unit
IsAllowed v (write_at p offset n) = v.read_only ≡ false
IsAllowed v (log_activity e p) = Unit

-- The calls of a handler are made on a server that takes actions of the user, and are allowed.
abbrev pub IsSafe : View → Out → Type 0
IsSafe v out = All (λ e. (allow_action v ≡ true) × IsAllowed v e) out.0

module _ (v : View) where
  pub guard-IsSafe :
      (b : Bool) (code : StatusCode) (out : Out)
      → (b ≡ true → IsSafe v out)
      → IsSafe v (guard b code out)
  guard-IsSafe true code out h = h refl
  guard-IsSafe false code out h = tt

  pub found-IsSafe {ℓ} :
      {A : Type ℓ} (o : Option A) (code : StatusCode) (k : A → Out)
      → ((a : A) → IsSafe v (k a))
      → IsSafe v (found o code k)
  found-IsSafe none code k h = tt
  found-IsSafe (some a) code k h = h a

  pub attempt-IsSafe :
      (e : Effect) (code : StatusCode) (out : Out)
      → allow_action v ≡ true
      → IsAllowed v e
      → IsSafe v out
      → IsSafe v (attempt v e code out)
  attempt-IsSafe e code out a h rest = elim (Bool-cases (v.succeeds e)) [
    | inl s ↦ rw s ((a, h), rest)
    | inr s ↦ rw s ((a, h), tt)
  ]

  pub if-IsSafe : (b : Bool) (x y : Out) → IsSafe v x → IsSafe v y → IsSafe v (if b then x else y)
  if-IsSafe true x y h k = h
  if-IsSafe false x y h k = k

  pub when_writable-IsSafe :
      (p : Permission) (out : Out)
      → (allow_action v ≡ true → Writable v p → IsSafe v out)
      → IsSafe v (when_writable v p out)
  when_writable-IsSafe p out h = guard-IsSafe (allow_action v) _ _ (λ a.
      guard-IsSafe (not v.read_only) _ _
        (λ r. guard-IsSafe (has_permission v p) _ _ (λ q. h a (ground (arith, r), q))))

  pub when_readable-IsSafe :
      (p : Permission) (out : Out)
      → (allow_action v ≡ true → has_permission v p ≡ true → IsSafe v out)
      → IsSafe v (when_readable v p out)
  when_readable-IsSafe p out h =
      guard-IsSafe (allow_action v) _ _ (λ a. guard-IsSafe (has_permission v p) _ _ (λ q. h a q))

  -- The test on a path, read as its visibility.
  pub IsVisible-not : (p : PathBuf) (d : Bool) → not (is_ignored v p d) ≡ true → IsVisible v p
  IsVisible-not p d h = (d, ground (arith, h))

  pub reply-IsSafe : (b : Bool) (code : StatusCode) (r : Reply) → IsSafe v (guard b code ([], r))
  reply-IsSafe true code r = tt
  reply-IsSafe false code r = tt
