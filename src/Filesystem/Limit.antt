-- ===== src/Filesystem/Limit.antt =====
-- application/src/server/filesystem/mod.rs: the disk limit over sequences of allocations and
-- releases.
use cyrogopus.Prelude.{
  ℕ, suc, ◌+◌, ◌<◌, ◌≤◌, ◌^◌, String, Bool, true, false, List, [], ◌∷◌, ◌≡◌, ◌↔◌, ◌⊎◌, arith, leb,
  ltb, if◌then◌else◌, All,
}
use cyrogopus.Prelude.Int.{ℤ, pos, negsuc, pos_part}
use cyrogopus.Prelude.Words.{u64_max, i64_mod}
use cyrogopus.Usage.Update.{size_at, size_at-undo, size-update_size_slice}
use cyrogopus.Filesystem.{Filesystem, allocate_in_path_slice, over_limit}

-- Without overflow of an i64, the test is the one that it reads as.
over_limit_lem :
    (fs : Filesystem) (l n : ℕ)
    → fs.disk_limit ≡ pos l
    → fs.disk_usage_cached + n < i64_mod
    → over_limit fs (pos n) ≡ (if leb l 0 then false else ltb l (fs.disk_usage_cached + n))
unfolding over_limit
over_limit_lem fs l n hl hb = rw hl (ground arith)

-- A limited allocation of n bytes, with a limit of l bytes and no overflow of an i64, succeeds
-- exactly when n is 0, there is no limit (l is 0), or the cached usage stays within the limit.
allocate-true_iff :
    (fs : Filesystem) (path : List String) (l n : ℕ)
    → fs.disk_limit ≡ pos l
    → fs.disk_usage_cached + n < i64_mod
    → ((allocate_in_path_slice fs path (pos n) false).1 ≡ true)
      ↔ ((n ≡ 0) ⊎ ((l ≡ 0) ⊎ (fs.disk_usage_cached + n ≤ l)))
unfolding allocate_in_path_slice
allocate-true_iff fs path l n hl hb =
    (ground (arith, over_limit_lem fs l n hl hb), ground (arith, over_limit_lem fs l n hl hb))

-- One request for bytes, or for their release; `ignorant` is whether it passes the limit by.
pub record Request : Type 0 where
  pub path : List String
  pub delta : ℤ
  pub ignorant : Bool

-- A run of requests, refused ones included.
unfoldable pub run : Filesystem → List Request → Filesystem
run fs [] = fs
run fs (r ∷ rs) = run (allocate_in_path_slice fs r.path r.delta r.ignorant).0 rs

abbrev pub IsSmall : Request → Type 0
IsSmall r = pos_part r.delta < 2 ^ 62

-- The bytes that are asked for past the limit.
abbrev pub forced_by : Request → ℕ
forced_by r = if r.ignorant then pos_part r.delta else 0

abbrev pub forced : List Request → ℕ
forced [] = 0
forced (r ∷ rs) = forced_by r + forced rs

abbrev pub IsWithin : ℕ → ℕ → Filesystem → Type 0
IsWithin l m fs = (fs.disk_limit ≡ pos l) × (fs.disk_usage_cached ≤ m)

allocate-IsWithin :
    (l m : ℕ) (fs : Filesystem) (path : List String) (delta : ℤ) (ignorant : Bool)
    → 0 < l
    → l ≤ m
    → m < 2 ^ 62
    → pos_part delta < 2 ^ 62
    → IsWithin l m fs
    → IsWithin l
        (m + (if ignorant then pos_part delta else 0))
        (allocate_in_path_slice fs path delta ignorant).0
unfolding allocate_in_path_slice
allocate-IsWithin l m fs path (pos n) true hl lm hb small h = ground arith
allocate-IsWithin l m fs path (pos n) false hl lm hb small h =
    ground (arith, over_limit_lem fs l n h.0 (omega arith))
allocate-IsWithin l m fs path (negsuc n) true hl lm hb small h = ground arith
allocate-IsWithin l m fs path (negsuc n) false hl lm hb small h = ground arith

run-below :
    (l m : ℕ) (fs : Filesystem) (rs : List Request)
    → 0 < l
    → l ≤ m
    → m + forced rs < 2 ^ 62
    → All IsSmall rs
    → IsWithin l m fs
    → IsWithin l (m + forced rs) (run fs rs)
unfolding run
run-below l m fs [] hl lm hb small h = (h.0, omega (arith, h.1))
run-below l m fs (r ∷ rs) hl lm hb small h =
    let next =
      allocate-IsWithin l m fs r.path r.delta r.ignorant hl lm (omega (arith, hb)) small.0 h in
    let rest =
      run-below l (m + forced_by r) _ rs hl (omega (arith, lm)) (omega (arith, hb)) small.1 next in
    (rest.0, omega (arith, rest.1))

-- From a usage within a limit of l bytes, whatever is asked for in steps below 2 ^ 62 bytes, the
-- cached usage exceeds the limit by no more than the bytes that were asked for with the flag that
-- passes the limit by, which a rename sets; without such requests it stays within the limit. The
-- limit and these bytes together are below 2 ^ 62, and the limit is not 0.
pub run-IsWithin :
    (l : ℕ) (fs : Filesystem) (rs : List Request)
    → 0 < l
    → l + forced rs < 2 ^ 62
    → All IsSmall rs
    → IsWithin l l fs
    → IsWithin l (l + forced rs) (run fs rs)
run-IsWithin l fs rs hl hb small h = run-below l l fs rs hl (omega arith) hb small h

-- A successful allocation of m + 1 bytes, where the usage fits an i64, and their release restore the
-- cached usage, and the size of a directory that did not saturate at 2 ^ 64 - 1.
allocate-release :
    (fs : Filesystem) (path : List String) (m : ℕ) (ignorant ignorant' : Bool) (q : List String)
    → fs.disk_usage_cached + suc m < i64_mod
    → size_at fs.disk_usage q + suc m ≤ u64_max
    → (allocate_in_path_slice fs path (pos (suc m)) ignorant).1 ≡ true
    → let taken = (allocate_in_path_slice fs path (pos (suc m)) ignorant).0 in
      let given = (allocate_in_path_slice taken path (negsuc m) ignorant').0 in
      (given.disk_usage_cached ≡ fs.disk_usage_cached)
      × (size_at given.disk_usage q ≡ size_at fs.disk_usage q)
unfolding allocate_in_path_slice
allocate-release fs path m ignorant ignorant' q hb h ok = (
  ground arith,
  ground (
    arith,
    size_at-undo fs.disk_usage path m q h,
    size-update_size_slice fs.disk_usage path (pos (suc m)) q,
  ),
)
