-- ===== src/Filesystem.antt =====
-- application/src/server/filesystem/mod.rs: the disk accounting of a server's filesystem. The state
-- is the three fields that the accounting reads and writes; the atomics and the lock around
-- `disk_usage` are taken for one whole call at a time.
pub mod Limit
pub mod Truncate
mod Tests
use cyrogopus.Prelude.{ℕ, suc, ◌-◌, String, Bool, true, false, not, List, ◌&&◌, leb, if◌then◌else◌}
use cyrogopus.Prelude.Int.{ℤ, pos, negsuc, ltb_ℤ}
use cyrogopus.Prelude.Words.{add_u64, as_i64, as_u64, add_i64}
use cyrogopus.Usage.{DiskUsage, update_size, update_size_slice, clear}

pub record Filesystem : Type 0 where
  pub disk_limit : ℤ  -- AtomicI64
  pub disk_usage_cached : ℕ  -- AtomicU64
  pub disk_usage : DiskUsage

abbrev pub is_zero : ℤ → Bool
is_zero (pos n) = leb n 0
is_zero (negsuc n) = false

-- `self.disk_limit() != 0 && current_usage + delta > self.disk_limit()`.
unfoldable pub over_limit : Filesystem → ℤ → Bool
over_limit fs delta =
    not (is_zero fs.disk_limit) && ltb_ℤ fs.disk_limit (add_i64 (as_i64 fs.disk_usage_cached) delta)

-- The change of the cached total: an atomic addition wraps, a subtraction stops at 0.
unfoldable pub charge : ℕ → ℤ → ℕ
charge cached (pos n) = add_u64 cached n
charge cached (negsuc n) = if leb (suc n) cached then cached - suc n else 0

-- `delta > 0 && !ignorant`.
abbrev pub is_limited : ℤ → Bool → Bool
is_limited (pos n) ignorant = not ignorant
is_limited (negsuc n) ignorant = false

-- The body that the four allocation functions share, over the update of the tree.
unfoldable pub allocate : Filesystem → DiskUsage → ℤ → Bool → Filesystem × Bool
unfolding over_limit charge
allocate fs updated delta ignorant =
    if is_zero delta
    then (fs, true)
    else if is_limited delta ignorant && over_limit fs delta
    then (fs, false)
    else (
      record fs { disk_usage_cached = charge fs.disk_usage_cached delta; disk_usage = updated },
      true,
    )

unfoldable pub async_allocate_in_path : Filesystem → List String → ℤ → Bool → Filesystem × Bool
unfolding allocate
async_allocate_in_path fs path delta ignorant =
    allocate fs (update_size fs.disk_usage path delta) delta ignorant

unfoldable pub async_allocate_in_path_slice :
    Filesystem → List String → ℤ → Bool → Filesystem × Bool
unfolding allocate
async_allocate_in_path_slice fs path delta ignorant =
    allocate fs (update_size_slice fs.disk_usage path delta) delta ignorant

unfoldable pub allocate_in_path : Filesystem → List String → ℤ → Bool → Filesystem × Bool
unfolding allocate
allocate_in_path fs path delta ignorant =
    allocate fs (update_size fs.disk_usage path delta) delta ignorant

unfoldable pub allocate_in_path_slice : Filesystem → List String → ℤ → Bool → Filesystem × Bool
unfolding allocate
allocate_in_path_slice fs path delta ignorant =
    allocate fs (update_size_slice fs.disk_usage path delta) delta ignorant

-- The accounting of `truncate_root`, before the files are removed.
unfoldable pub truncate_root : Filesystem → Filesystem
truncate_root fs = record fs { disk_usage_cached = 0; disk_usage = clear fs.disk_usage }

-- The stored limit of `update_disk_limit`.
unfoldable pub update_disk_limit : Filesystem → ℕ → Filesystem
update_disk_limit fs limit = record fs { disk_limit = as_i64 limit }

-- `usage` is what `limiter_usage` returns.
unfoldable pub is_full : Filesystem → ℕ → Bool
is_full fs usage = not (is_zero fs.disk_limit) && leb (as_u64 fs.disk_limit) usage
