-- ===== src/Filesystem/Truncate.antt =====
-- application/src/server/filesystem/mod.rs: the accounting of truncate_path, which removes a file
-- or a directory. `is_dir` and `len` are what the metadata of the path say.
use cyrogopus.Prelude.{
  ℕ, zero, suc, ◌-◌, ◌<◌, ◌^◌, String, Bool, true, false, Option, none, some, List, [], ◌∷◌, ◌≡◌,
  refl, ap, ◌∙◌, arith, str_eq_refl, unwrap_or, if◌then◌else◌, is_prefix, Bool-cases, inl, inr,
}
use mathlib.Core.Path.{fun_ext}
use cyrogopus.Prelude.Int.{ℤ, pos, negsuc}
use cyrogopus.Prelude.Words.{as_i64, as_i64-pos}
use cyrogopus.Usage.{
  DiskUsage, is_root, walk, get_size, update_size, update_size_slice, remove_path,
}
use cyrogopus.Usage.Update.{size_at, is_proper_prefix, size-update_size_slice}
use cyrogopus.Usage.Sizes.{remove_at, removed, resized, walk-apply}
use cyrogopus.Filesystem.{Filesystem, async_allocate_in_path, allocate, charge}

-- `-x` of an i64.
abbrev pub negate : ℤ → ℤ
negate (pos zero) = pos 0
negate (pos (suc n)) = negsuc n
negate (negsuc n) = pos (suc n)

-- A directory counts for what the tree says of it, and a file for its length.
abbrev pub removed_size : Filesystem → List String → Bool → ℕ → ℕ
removed_size fs path is_dir len = if is_dir then unwrap_or (get_size fs.disk_usage path) 0 else len

abbrev pub forget : Filesystem → List String → Bool → Filesystem
forget fs path is_dir =
    if is_dir then record fs { disk_usage = (remove_path fs.disk_usage path).1 } else fs

unfoldable pub truncate_path : Filesystem → List String → Bool → ℕ → Filesystem
unfolding async_allocate_in_path get_size
truncate_path fs path is_dir len =
    forget
      (async_allocate_in_path fs path (negate (as_i64 (removed_size fs path is_dir len))) false).0
      path is_dir

update_size-slice :
    (d : DiskUsage) (c : String) (p : List String) (delta : ℤ)
    → is_root (c ∷ p) ≡ false
    → update_size d (c ∷ p) delta ≡ update_size_slice d (c ∷ p) delta
unfolding update_size update_size_slice
update_size-slice d c p delta h = rw h refl

-- The release of a size from a path that is charged for it.
release :
    (fs : Filesystem) (path : List String) (n : ℕ)
    → ((async_allocate_in_path fs path (negsuc n) false).0.disk_usage
        ≡ update_size fs.disk_usage path (negsuc n))
      × ((async_allocate_in_path fs path (negsuc n) false).0.disk_usage_cached
          ≡ fs.disk_usage_cached - suc n)
unfolding async_allocate_in_path allocate charge
release fs path n = ground arith

is_prefix_refl : (p : List String) → is_prefix p p ≡ true
is_prefix_refl [] = refl
is_prefix_refl (c ∷ p) = rw (str_eq_refl c) (is_prefix_refl p)

negate_size : (n : ℕ) → suc n < 2 ^ 63 → negate (as_i64 (suc n)) ≡ negsuc n
negate_size n h = rw (as_i64-pos (suc n) h) refl

-- A directory that is released in full has nothing left.
emptied :
    (d : DiskUsage) (c : String) (p : List String) (n : ℕ)
    → walk d (c ∷ p) ≡ some (suc n)
    → resized (walk d) (c ∷ p) (negsuc n) (c ∷ p) ≡ some 0
emptied d c p n e = rw (is_prefix_refl (c ∷ p)) (rw e (ap some (omega arith)))

-- The sizes after a directory of the size `suc n` was released and removed.
sizes_after :
    (d : DiskUsage) (c : String) (p : List String) (n : ℕ)
    → is_root (c ∷ p) ≡ false
    → walk d (c ∷ p) ≡ some (suc n)
    → (q : List String)
    → walk (remove_path (update_size_slice d (c ∷ p) (negsuc n)) (c ∷ p)).1 q
      ≡ removed (some 0) (resized (walk d) (c ∷ p) (negsuc n)) (c ∷ p) q
sizes_after d c p n h e q =
    let u = update_size_slice d (c ∷ p) (negsuc n) in
    let f = fun_ext (size-update_size_slice d (c ∷ p) (negsuc n)) in
    walk-apply (remove_at (c ∷ p)) u q
    ∙ ap (λ b. if b then walk u q else removed (walk u (c ∷ p)) (walk u) (c ∷ p) q) h
    ∙ ap (λ g. removed (g (c ∷ p)) g (c ∷ p) q) f
    ∙ ap (λ o. removed o (resized (walk d) (c ∷ p) (negsuc n)) (c ∷ p) q) (emptied d c p n e)

-- The sizes of a tree from which a directory of a given size was taken.
abbrev pub taken : DiskUsage → List String → ℕ → List String → Option ℕ
taken d path s q =
    if is_prefix path q
    then none
    else if is_proper_prefix q path
    then some (size_at d q - s)
    else walk d q

removed-resized :
    (d : DiskUsage) (path : List String) (n : ℕ) (q : List String)
    → removed (some 0) (resized (walk d) path (negsuc n)) path q ≡ taken d path (suc n) q
removed-resized d path n q = elim (Bool-cases (is_prefix path q)) [
  | inl e ↦ rw e refl
  | inr e ↦ rw e (elim (Bool-cases (is_proper_prefix q path)) [
    | inl f ↦ rw f (ap some (omega arith))
    | inr f ↦ rw f refl
  ])
]

size-get_size :
    (d : DiskUsage) (c : String) (p : List String) (n : ℕ)
    → is_root (c ∷ p) ≡ false
    → walk d (c ∷ p) ≡ some (suc n)
    → unwrap_or (get_size d (c ∷ p)) 0 ≡ suc n
unfolding get_size
size-get_size d c p n h e = rw h (rw e refl)

-- Removing a directory that is not the root and that counts for a size of at least 1 byte and less
-- than 2 ^ 63 takes that size once from each directory above it, the root of the tree excepted,
-- and from the cached usage, none of which falls below 0. The directory and all below it have no
-- size after it, and every other size is as before.
truncate_path-taken :
    (fs : Filesystem) (c : String) (p : List String) (n len : ℕ) (q : List String)
    → is_root (c ∷ p) ≡ false
    → suc n < 2 ^ 63
    → walk fs.disk_usage (c ∷ p) ≡ some (suc n)
    → (walk (truncate_path fs (c ∷ p) true len).disk_usage q
        ≡ taken fs.disk_usage (c ∷ p) (suc n) q)
      × ((truncate_path fs (c ∷ p) true len).disk_usage_cached ≡ fs.disk_usage_cached - suc n)
unfolding truncate_path
truncate_path-taken fs c p n len q h b e = rw (size-get_size fs.disk_usage c p n h e) (
    rw (negate_size n b) (
      ap (λ u. walk (remove_path u (c ∷ p)).1 q)
            ((release fs (c ∷ p) n).0 ∙ update_size-slice fs.disk_usage c p (negsuc n) h)
          ∙ sizes_after fs.disk_usage c p n h e q
          ∙ removed-resized fs.disk_usage (c ∷ p) n q,
      (release fs (c ∷ p) n).1,
    ))
