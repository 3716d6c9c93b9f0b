-- ===== src/Cap/Calls.antt =====
-- application/src/server/filesystem/cap/mod.rs: what each operation asks of cap-std, of the
-- operating system or of nobody. An operation stands for its blocking and its async form unless
-- both are named; what a call answers is passed on as it is.
use cyrogopus.Prelude.{ℕ, Option, none, some, ltb, if◌then◌else◌}
use cyrogopus.Prelude.Int.{ℤ, pos, negsuc}
use cyrogopus.Prelude.Words.{i64_mod}
use cyrogopus.Cap.{PathBuf, CapFilesystem, relative_path, is_empty}

-- The methods of a `Dir` that take one path, with the two calls of rustix at its descriptor.
pub data Method : Type 0 where
  create_dir_all_at create_dir_at remove_dir_at remove_dir_all_at remove_file_at : Method
  metadata_at symlink_metadata_at canonicalize_at read_link_at read_link_contents_at : Method
  read_to_string_at open_at open_with_at write_at create_at read_dir_at : Method
  set_permissions_at chmod_at : Method
  utimens_at : ℕ → ℕ → Method

-- The calls of the operating system on the base path itself.
pub data HostMethod : Type 0 where
  host_metadata host_symlink_metadata host_set_permissions host_read_dir : HostMethod

pub data PairMethod : Type 0 where
  rename_at copy_at hard_link_at : PairMethod

pub data Outcome : Type 0 where
  uninitialized : Outcome
  invalid_time : Outcome
  returned : PathBuf → Outcome
  on_dir : ℕ → Method → PathBuf → Outcome
  on_host : HostMethod → PathBuf → Outcome
  on_dirs : PairMethod → ℕ → PathBuf → ℕ → PathBuf → Outcome
  symlink_on_dir : ℕ → PathBuf → PathBuf → Outcome

-- `get_inner()?` before a call.
abbrev pub with_inner : Option ℕ → (ℕ → Outcome) → Outcome
with_inner none k = uninitialized
with_inner (some d) k = k d

-- The shape that most operations have.
abbrev pub call : CapFilesystem → Method → PathBuf → Outcome
call fs m p = with_inner fs.inner (λ d. on_dir d m (relative_path fs p))

-- The shape of those that read the base path itself where the path is empty.
abbrev pub call_or_host : CapFilesystem → HostMethod → Method → PathBuf → Outcome
call_or_host fs h m p =
    if is_empty (relative_path fs p) then on_host h fs.base_path else call fs m p

abbrev pub create_dir_all : CapFilesystem → PathBuf → Outcome
create_dir_all fs p = call fs create_dir_all_at p

abbrev pub create_dir : CapFilesystem → PathBuf → Outcome
create_dir fs p = call fs create_dir_at p

abbrev pub remove_dir : CapFilesystem → PathBuf → Outcome
remove_dir fs p = call fs remove_dir_at p

abbrev pub remove_dir_all : CapFilesystem → PathBuf → Outcome
remove_dir_all fs p = call fs remove_dir_all_at p

abbrev pub remove_file : CapFilesystem → PathBuf → Outcome
remove_file fs p = call fs remove_file_at p

-- Two directories: the paths are both taken relative to the first filesystem.
abbrev pub call_pair : CapFilesystem → PairMethod → PathBuf → CapFilesystem → PathBuf → Outcome
call_pair fs m from to_dir to = with_inner fs.inner (λ d.
    with_inner to_dir.inner (λ e. on_dirs m d (relative_path fs from) e (relative_path fs to)))

abbrev pub rename : CapFilesystem → PathBuf → CapFilesystem → PathBuf → Outcome
rename fs from to_dir to = call_pair fs rename_at from to_dir to

abbrev pub copy : CapFilesystem → PathBuf → CapFilesystem → PathBuf → Outcome
copy fs from to_dir to = call_pair fs copy_at from to_dir to

abbrev pub hard_link : CapFilesystem → PathBuf → CapFilesystem → PathBuf → Outcome
hard_link fs target dst_dir link = call_pair fs hard_link_at target dst_dir link

abbrev pub metadata : CapFilesystem → PathBuf → Outcome
metadata fs p = call_or_host fs host_metadata metadata_at p

abbrev pub symlink_metadata : CapFilesystem → PathBuf → Outcome
symlink_metadata fs p = call_or_host fs host_symlink_metadata symlink_metadata_at p

abbrev pub canonicalize : CapFilesystem → PathBuf → Outcome
canonicalize fs p =
    if is_empty (relative_path fs p)
    then returned (relative_path fs p)
    else call fs canonicalize_at p

abbrev pub read_link : CapFilesystem → PathBuf → Outcome
read_link fs p = call fs read_link_at p

abbrev pub read_link_contents : CapFilesystem → PathBuf → Outcome
read_link_contents fs p = call fs read_link_contents_at p

abbrev pub read_to_string : CapFilesystem → PathBuf → Outcome
read_to_string fs p = call fs read_to_string_at p

abbrev pub open_file : CapFilesystem → PathBuf → Outcome
open_file fs p = call fs open_at p

abbrev pub open_with : CapFilesystem → PathBuf → Outcome
open_with fs p = call fs open_with_at p

abbrev pub write : CapFilesystem → PathBuf → Outcome
write fs p = call fs write_at p

abbrev pub create : CapFilesystem → PathBuf → Outcome
create fs p = call fs create_at p

abbrev pub async_set_permissions : CapFilesystem → PathBuf → Outcome
async_set_permissions fs p = call_or_host fs host_set_permissions set_permissions_at p

-- The blocking form has no branch for the base path.
abbrev pub set_permissions : CapFilesystem → PathBuf → Outcome
set_permissions fs p = call fs set_permissions_at p

abbrev pub set_symlink_permissions : CapFilesystem → PathBuf → Outcome
set_symlink_permissions fs p = call_or_host fs host_set_permissions chmod_at p

-- Seconds since the epoch, where a time is one that the call can carry.
abbrev pub since_epoch : ℤ → Option ℕ
since_epoch (pos n) = if ltb n i64_mod then some n else none
since_epoch (negsuc n) = none

abbrev pub utimens : CapFilesystem → PathBuf → Option ℕ → Option ℕ → Outcome
utimens fs p (some m) (some a) = call fs (utimens_at m a) p
utimens fs p _ _ = with_inner fs.inner (λ d. invalid_time)

-- Without an access time the source takes the clock's, `now`.
abbrev pub access_or_now : Option ℤ → ℤ → ℤ
access_or_now none now = now
access_or_now (some a) now = a

abbrev pub set_times : CapFilesystem → PathBuf → ℤ → Option ℤ → ℤ → Outcome
set_times fs p modified accessed now =
    utimens fs p (since_epoch modified) (since_epoch (access_or_now accessed now))

abbrev pub symlink : CapFilesystem → PathBuf → PathBuf → Outcome
symlink fs target link =
    with_inner fs.inner (λ d. symlink_on_dir d (relative_path fs target) (relative_path fs link))

abbrev pub read_dir : CapFilesystem → PathBuf → Outcome
read_dir fs p = call_or_host fs host_read_dir read_dir_at p
