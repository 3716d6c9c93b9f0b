-- ===== src/Usage/Update.antt =====
-- application/src/server/filesystem/usage.rs: what the updates change, seen through the sizes that
-- `walk` reads.
use cyrogopus.Prelude.{
  ℕ, suc, ◌+◌, ◌≤◌, not, ◌&&◌, String, Bool, false, Option, none, some, List, [], ◌∷◌, ◌≡◌, refl,
  ap, arith, eq_iff, unwrap_or, if◌then◌else◌, is_prefix,
}
use cyrogopus.Prelude.Int.{ℤ, pos, negsuc}
use cyrogopus.Prelude.Words.{u64_max}
use cyrogopus.Usage.{
  DiskUsage, get_size, update_size, is_root, node, Entries, fresh, get_entry, walk, adjust, resize,
  update_along, size, update_size_slice,
}
use cyrogopus.Usage.Entry.{get-insert}

-- The size that a directory counts for: 0 where it has no entry.
abbrev pub size_at : DiskUsage → List String → ℕ
size_at d q = unwrap_or (walk d q) 0

-- A prefix that names an entry, and not the root.
abbrev pub is_proper_prefix : List String → List String → Bool
is_proper_prefix [] p = false
is_proper_prefix (c ∷ q) p = is_prefix (c ∷ q) p

size-update_along :
    (d : DiskUsage) (p : List String) (delta : ℤ) → size (update_along d p delta) ≡ size d
unfolding update_along
size-update_along (node s es) [] delta = refl
size-update_along (node s es) (c ∷ p) delta = refl

pub walk-nil : (d : DiskUsage) → walk d [] ≡ some (size d)
unfolding walk
walk-nil (node s es) = refl

size-resize : (d : DiskUsage) (delta : ℤ) → size (resize d delta) ≡ adjust (size d) delta
size-resize (node s es) delta = refl

walk-resize :
    (d : DiskUsage) (delta : ℤ) (c : String) (q : List String)
    → walk (resize d delta) (c ∷ q) ≡ walk d (c ∷ q)
unfolding walk
walk-resize (node s es) delta c q = refl

walk-fresh : (c : String) (q : List String) → walk fresh (c ∷ q) ≡ none
unfolding walk get_entry
walk-fresh c q = refl

-- `walk` from an entry that may be missing.
abbrev pub walk_from : Option DiskUsage → List String → Option ℕ
walk_from none q = none
walk_from (some d) q = walk d q

pub walk-cons :
    (s : ℕ) (es : Entries) (c : String) (q : List String)
    → walk (node s es) (c ∷ q) ≡ walk_from (get_entry c es) q
unfolding walk
walk-cons s es c q = ground arith

walk-default :
    (o : Option DiskUsage) (c : String) (q : List String)
    → walk (unwrap_or o fresh) (c ∷ q) ≡ walk_from o (c ∷ q)
walk-default none c q = walk-fresh c q
walk-default (some d) c q = refl

-- Below the entry that is resized, and at it.
below :
    (o : Option DiskUsage) (p : List String) (delta : ℤ) (q : List String)
    → ((c : String) (r : List String)
        → walk (update_along (resize (unwrap_or o fresh) delta) p delta) (c ∷ r) ≡ (
            if is_prefix (c ∷ r) p
            then some (adjust (size_at (resize (unwrap_or o fresh) delta) (c ∷ r)) delta)
            else walk (resize (unwrap_or o fresh) delta) (c ∷ r)))
    → walk (update_along (resize (unwrap_or o fresh) delta) p delta) q
      ≡ (if is_prefix q p then some (adjust (unwrap_or (walk_from o q) 0) delta) else walk_from o q)
below none p delta [] ih = rw walk-nil (rw size-update_along refl)
below (some d) p delta [] ih =
    rw walk-nil (rw size-update_along (rw walk-nil (rw size-resize refl)))
below o p delta (c ∷ r) ih = rw (ih c r) (rw walk-resize (rw walk-default refl))

pub walk-update_along :
    (d : DiskUsage) (p : List String) (delta : ℤ) (c : String) (q : List String)
    → walk (update_along d p delta) (c ∷ q)
      ≡ (if is_prefix (c ∷ q) p then some (adjust (size_at d (c ∷ q)) delta) else walk d (c ∷ q))
unfolding update_along
walk-update_along (node s es) [] delta c q = refl
walk-update_along (node s es) (k ∷ p) delta c q = rw (walk-cons s _ c q) (
    rw get-insert (
      rw (walk-cons s es c q) (
        ground (
          arith,
          eq_iff k c,
          eq_iff c k,
          below (get_entry k es) p delta q
              (walk-update_along (resize (unwrap_or (get_entry k es) fresh) delta) p delta),
        ))))

-- Resizing along a path adds the delta to the size of every directory on the path, from the first
-- component down, creating those that are missing with size 0, and changes no other size: neither
-- of other paths nor of the root. Sizes saturate at 0 and at 2 ^ 64 - 1.
pub size-update_size_slice :
    (d : DiskUsage) (p : List String) (delta : ℤ) (q : List String)
    → walk (update_size_slice d p delta) q
      ≡ (if is_proper_prefix q p then some (adjust (size_at d q) delta) else walk d q)
unfolding update_size_slice
size-update_size_slice d [] delta [] = refl
size-update_size_slice d [] delta (c ∷ q) = refl
size-update_size_slice d (k ∷ p) delta [] =
    rw walk-nil (rw walk-nil (ap some (size-update_along d (k ∷ p) delta)))
size-update_size_slice d (k ∷ p) delta (c ∷ q) = walk-update_along d (k ∷ p) delta c q

-- Taking back what was added restores every size that did not saturate.
pub size_at-undo :
    (d : DiskUsage) (p : List String) (m : ℕ) (q : List String)
    → size_at d q + suc m ≤ u64_max
    → size_at (update_size_slice (update_size_slice d p (pos (suc m))) p (negsuc m)) q ≡ size_at d q
size_at-undo d p m q h = ground (
  arith,
  size-update_size_slice (update_size_slice d p (pos (suc m))) p (negsuc m) q,
  size-update_size_slice d p (pos (suc m)) q,
)

-- After `update_size` the size of the root is as before, that of each directory on the path has
-- changed by the delta, from 0 where there was none and held to 0 and 2 ^ 64 - 1, and no other size
-- has changed.
get_size-update_size :
    (d : DiskUsage) (p : List String) (delta : ℤ) (q : List String)
    → get_size (update_size d p delta) q ≡ (
        if not (is_root p) && (not (is_root q) && is_prefix q p)
        then some (adjust (size_at d q) delta)
        else get_size d q)
unfolding get_size update_size
get_size-update_size d p delta [] = ground (arith, size-update_along d p delta)
get_size-update_size d p delta (c ∷ q) =
    ground (arith, size-update_along d p delta, walk-update_along d p delta c q)
