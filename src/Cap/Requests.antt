-- ===== src/Cap/Requests.antt =====
-- application/src/server/filesystem/cap/mod.rs: all operations of a filesystem at once.
use cyrogopus.Prelude.{
  ℕ, true, false, Option, none, some, ◌≡◌, inl, inr, refl, Bool-cases, Option-cases,
}
use cyrogopus.Prelude.Int.{ℤ}
use cyrogopus.Cap.{PathBuf, CapFilesystem, is_empty, relative_path}
use cyrogopus.Cap.Calls.{
  Method, create_dir_all_at, canonicalize_at, chmod_at, copy_at, create_at, create_dir_at,
  hard_link_at, host_metadata, host_read_dir, host_set_permissions, host_symlink_metadata,
  metadata_at, open_at, open_with_at, read_dir_at, read_link_at, read_link_contents_at,
  read_to_string_at, remove_dir_all_at, remove_dir_at, remove_file_at, rename_at,
  set_permissions_at, symlink_metadata_at, utimens_at, write_at, HostMethod, PairMethod, Outcome,
  uninitialized, invalid_time, returned, on_dir, on_host, on_dirs, symlink_on_dir, with_inner, call,
  call_or_host, call_pair, create_dir_all, create_dir, remove_dir, remove_dir_all, remove_file,
  rename, copy, hard_link, metadata, symlink_metadata, canonicalize, read_link, read_link_contents,
  read_to_string, open_file, open_with, write, create, async_set_permissions, set_permissions,
  set_symlink_permissions, set_times, symlink, read_dir, utimens, since_epoch, access_or_now,
}
use cyrogopus.Cap.Confine.{is_path, is_confined, is_confined-relative_path}

-- The operations that take one path only.
pub data Simple : Type 0 where
  to_create_dir_all to_create_dir to_remove_dir to_remove_dir_all to_remove_file : Simple
  to_metadata to_symlink_metadata to_canonicalize to_read_link to_read_link_contents : Simple
  to_read_to_string to_open to_open_with to_write to_create : Simple
  to_async_set_permissions to_set_permissions to_set_symlink_permissions to_read_dir : Simple

pub data Request : Type 0 where
  simple : Simple → PathBuf → Request
  to_rename to_copy to_hard_link : PathBuf → CapFilesystem → PathBuf → Request
  to_set_times : PathBuf → ℤ → Option ℤ → ℤ → Request
  to_symlink : PathBuf → PathBuf → Request

abbrev pub perform_simple : CapFilesystem → Simple → PathBuf → Outcome
perform_simple fs to_create_dir_all p = create_dir_all fs p
perform_simple fs to_create_dir p = create_dir fs p
perform_simple fs to_remove_dir p = remove_dir fs p
perform_simple fs to_remove_dir_all p = remove_dir_all fs p
perform_simple fs to_remove_file p = remove_file fs p
perform_simple fs to_metadata p = metadata fs p
perform_simple fs to_symlink_metadata p = symlink_metadata fs p
perform_simple fs to_canonicalize p = canonicalize fs p
perform_simple fs to_read_link p = read_link fs p
perform_simple fs to_read_link_contents p = read_link_contents fs p
perform_simple fs to_read_to_string p = read_to_string fs p
perform_simple fs to_open p = open_file fs p
perform_simple fs to_open_with p = open_with fs p
perform_simple fs to_write p = write fs p
perform_simple fs to_create p = create fs p
perform_simple fs to_async_set_permissions p = async_set_permissions fs p
perform_simple fs to_set_permissions p = set_permissions fs p
perform_simple fs to_set_symlink_permissions p = set_symlink_permissions fs p
perform_simple fs to_read_dir p = read_dir fs p

abbrev pub perform : CapFilesystem → Request → Outcome
perform fs (simple s p) = perform_simple fs s p
perform fs (to_rename from to_dir to) = rename fs from to_dir to
perform fs (to_copy from to_dir to) = copy fs from to_dir to
perform fs (to_hard_link target to_dir link) = hard_link fs target to_dir link
perform fs (to_set_times p m a now) = set_times fs p m a now
perform fs (to_symlink target link) = symlink fs target link

-- The paths of a request are paths.
abbrev pub IsRequest : Request → Type 0
IsRequest (simple s p) = is_path p ≡ true
IsRequest (to_rename p d q) = (is_path p ≡ true) × (is_path q ≡ true)
IsRequest (to_copy p d q) = (is_path p ≡ true) × (is_path q ≡ true)
IsRequest (to_hard_link p d q) = (is_path p ≡ true) × (is_path q ≡ true)
IsRequest (to_set_times p m a now) = is_path p ≡ true
IsRequest (to_symlink p q) = (is_path p ≡ true) × (is_path q ≡ true)

-- What stays inside: confined paths below the open directory of the filesystem, or its base path.
abbrev pub IsInside : CapFilesystem → Outcome → Type 0
IsInside fs uninitialized = Unit
IsInside fs invalid_time = Unit
IsInside fs (returned p) = is_confined p ≡ true
IsInside fs (on_dir d m p) = (fs.inner ≡ some d) × (is_confined p ≡ true)
IsInside fs (on_host m p) = p ≡ fs.base_path
IsInside fs (on_dirs m d p e q) =
    (fs.inner ≡ some d) × (is_confined p ≡ true) × (is_confined q ≡ true)
IsInside fs (symlink_on_dir d p q) =
    (fs.inner ≡ some d) × (is_confined p ≡ true) × (is_confined q ≡ true)

module _ (fs : CapFilesystem) (h : is_empty fs.base_path ≡ false) where
  IsInside-call : (m : Method) (p : PathBuf) → is_path p ≡ true → IsInside fs (call fs m p)
  IsInside-call m p i = elim (Option-cases fs.inner) [
    | inl e ↦ rw e tt
    | inr (d, e) ↦ rw e (refl, is_confined-relative_path fs p h i)
  ]

  IsInside-call_or_host :
      (m : HostMethod) (n : Method) (p : PathBuf)
      → is_path p ≡ true
      → IsInside fs (call_or_host fs m n p)
  IsInside-call_or_host m n p i = elim (Bool-cases (is_empty (relative_path fs p))) [
    | inl e ↦ rw e refl
    | inr e ↦ rw e (IsInside-call n p i)
  ]

  IsInside-call_pair :
      (m : PairMethod) (p : PathBuf) (d : CapFilesystem) (q : PathBuf)
      → is_path p ≡ true
      → is_path q ≡ true
      → IsInside fs (call_pair fs m p d q)
  IsInside-call_pair m p d q i j = elim (Option-cases fs.inner) [
    | inl e ↦ rw e tt
    | inr (k, e) ↦ elim (Option-cases d.inner) [
      | inl f ↦ rw e (rw f tt)
      | inr (l, f) ↦
          rw e (rw f (refl, is_confined-relative_path fs p h i, is_confined-relative_path fs q h j))
    ]
  ]

  IsInside-symlink :
      (p q : PathBuf) → is_path p ≡ true → is_path q ≡ true → IsInside fs (symlink fs p q)
  IsInside-symlink p q i j = elim (Option-cases fs.inner) [
    | inl e ↦ rw e tt
    | inr (k, e) ↦
        rw e (refl, is_confined-relative_path fs p h i, is_confined-relative_path fs q h j)
  ]

  IsInside-canonicalize : (p : PathBuf) → is_path p ≡ true → IsInside fs (canonicalize fs p)
  IsInside-canonicalize p i = elim (Bool-cases (is_empty (relative_path fs p))) [
    | inl e ↦ rw e (is_confined-relative_path fs p h i)
    | inr e ↦ rw e (IsInside-call canonicalize_at p i)
  ]

  IsInside-invalid : IsInside fs (with_inner fs.inner (λ d. invalid_time))
  IsInside-invalid = elim (Option-cases fs.inner) [ inl e ↦ rw e tt | inr (d, e) ↦ rw e tt ]

  IsInside-utimens :
      (p : PathBuf) (m a : Option ℕ) → is_path p ≡ true → IsInside fs (utimens fs p m a)
  IsInside-utimens p (some m) (some a) i = IsInside-call (utimens_at m a) p i
  IsInside-utimens p (some m) none i = IsInside-invalid
  IsInside-utimens p none a i = IsInside-invalid

  IsInside-perform_simple :
      (s : Simple) (p : PathBuf) → is_path p ≡ true → IsInside fs (perform_simple fs s p)
  IsInside-perform_simple to_create_dir_all p i = IsInside-call create_dir_all_at p i
  IsInside-perform_simple to_create_dir p i = IsInside-call create_dir_at p i
  IsInside-perform_simple to_remove_dir p i = IsInside-call remove_dir_at p i
  IsInside-perform_simple to_remove_dir_all p i = IsInside-call remove_dir_all_at p i
  IsInside-perform_simple to_remove_file p i = IsInside-call remove_file_at p i
  IsInside-perform_simple to_metadata p i = IsInside-call_or_host host_metadata metadata_at p i
  IsInside-perform_simple to_symlink_metadata p i =
      IsInside-call_or_host host_symlink_metadata symlink_metadata_at p i
  IsInside-perform_simple to_canonicalize p i = IsInside-canonicalize p i
  IsInside-perform_simple to_read_link p i = IsInside-call read_link_at p i
  IsInside-perform_simple to_read_link_contents p i = IsInside-call read_link_contents_at p i
  IsInside-perform_simple to_read_to_string p i = IsInside-call read_to_string_at p i
  IsInside-perform_simple to_open p i = IsInside-call open_at p i
  IsInside-perform_simple to_open_with p i = IsInside-call open_with_at p i
  IsInside-perform_simple to_write p i = IsInside-call write_at p i
  IsInside-perform_simple to_create p i = IsInside-call create_at p i
  IsInside-perform_simple to_async_set_permissions p i =
      IsInside-call_or_host host_set_permissions set_permissions_at p i
  IsInside-perform_simple to_set_permissions p i = IsInside-call set_permissions_at p i
  IsInside-perform_simple to_set_symlink_permissions p i =
      IsInside-call_or_host host_set_permissions chmod_at p i
  IsInside-perform_simple to_read_dir p i = IsInside-call_or_host host_read_dir read_dir_at p i

-- Whatever operation a filesystem with a base path performs, on paths as `components()` yields
-- them: every path that it hands to cap-std or rustix has neither a root nor a `..`, the first of
-- them goes to its own open directory, and the only other path that it reads or changes is the
-- base path.
pub IsInside-perform :
    (fs : CapFilesystem) (r : Request)
    → is_empty fs.base_path ≡ false
    → IsRequest r
    → IsInside fs (perform fs r)
IsInside-perform fs (simple s p) h i = IsInside-perform_simple fs h s p i
IsInside-perform fs (to_rename p d q) h (i, j) = IsInside-call_pair fs h rename_at p d q i j
IsInside-perform fs (to_copy p d q) h (i, j) = IsInside-call_pair fs h copy_at p d q i j
IsInside-perform fs (to_hard_link p d q) h (i, j) = IsInside-call_pair fs h hard_link_at p d q i j
IsInside-perform fs (to_set_times p m a now) h i =
    IsInside-utimens fs h p (since_epoch m) (since_epoch (access_or_now a now)) i
IsInside-perform fs (to_symlink p q) h (i, j) = IsInside-symlink fs h p q i j
