-- ===== src/Usage/Sizes.antt =====
-- application/src/server/filesystem/usage.rs: the tree seen as a table from paths to sizes.
use cyrogopus.Prelude.{
  ℕ, ◌-◌, sym, String, Bool, true, false, Option, none, some, List, [], ◌∷◌, ◌≡◌, refl, ap, ◌∙◌,
  unwrap_or, if◌then◌else◌, is_prefix, Option-cases, inl, inr,
}
use mathlib.Core.Option
use mathlib.Core.Path.{fun_ext}
use cyrogopus.Prelude.Int.{ℤ}
use cyrogopus.Usage.{
  DiskUsage, node, adjust, size, is_root, walk, get_entry, update_size_slice, recursive_remove,
  remove_path,
}
use cyrogopus.Usage.Update.{is_proper_prefix, walk-nil, size-update_size_slice}
use cyrogopus.Usage.Remove.{subtree, size_after, size-recursive_remove, walk-recursive_remove}

-- The abstract view: the size of each path that has one.
abbrev pub Sizes : Type 0
Sizes = List String → Option ℕ

pub data Op : Type 0 where
  resize_along : List String → ℤ → Op
  remove_at : List String → Op

-- Every directory on the path but the root changes by the delta, from 0 where it has no size.
abbrev pub resized : Sizes → List String → ℤ → Sizes
resized f p delta q = if is_proper_prefix q p then some (adjust (unwrap_or (f q) 0) delta) else f q

-- What had the size `s` at `p` is gone with all below it, and missing above it but at the root.
abbrev pub removed : Option ℕ → Sizes → List String → Sizes
removed none f p q = f q
removed (some s) f p q =
    if is_prefix p q
    then none
    else if is_proper_prefix q p
    then Option.map (λ t. t - s) (f q)
    else f q

abbrev pub spec : Op → Sizes → Sizes
spec (resize_along p delta) f q = resized f p delta q
spec (remove_at p) f q = if is_root p then f q else removed (f p) f p q

abbrev pub apply : Op → DiskUsage → DiskUsage
apply (resize_along p delta) d = update_size_slice d p delta
apply (remove_at p) d = (remove_path d p).1

abbrev pub run : List Op → DiskUsage → DiskUsage
run [] d = d
run (op ∷ ops) d = run ops (apply op d)

abbrev pub run_spec : List Op → Sizes → Sizes
run_spec [] f = f
run_spec (op ∷ ops) f = run_spec ops (spec op f)

walk-subtree : (d : DiskUsage) (p : List String) → walk d p ≡ Option.map size (subtree d p)
unfolding walk subtree
walk-subtree (node s es) [] = refl
walk-subtree (node s es) (c ∷ p) = elim (Option-cases (get_entry c es)) [
  | inl e ↦ rw (e, walk, subtree) refl
  | inr (u, e) ↦ rw (e, walk, subtree) (walk-subtree u p)
]

size_after-removed :
    (o : Option DiskUsage) (f : Sizes) (p : List String) (k : String) (q : List String)
    → size_after o p (k ∷ q) (f (k ∷ q)) ≡ removed (Option.map size o) f p (k ∷ q)
size_after-removed none f p k q = refl
size_after-removed (some u) f p k q = refl

removed-nil :
    (o : Option ℕ) (f : Sizes) (c : String) (p : List String) → f [] ≡ removed o f (c ∷ p) []
removed-nil none f c p = refl
removed-nil (some s) f c p = refl

walk-removed :
    (d : DiskUsage) (c : String) (p q : List String)
    → walk (recursive_remove d c p).1 q ≡ removed (walk d (c ∷ p)) (walk d) (c ∷ p) q
walk-removed d c p [] =
    walk-nil (recursive_remove d c p).1
    ∙ ap some (size-recursive_remove d c p)
    ∙ sym (walk-nil d)
    ∙ removed-nil (walk d (c ∷ p)) (walk d) c p
walk-removed d c p (k ∷ q) =
    walk-recursive_remove d c p k q
    ∙ size_after-removed (subtree d (c ∷ p)) (walk d) (c ∷ p) k q
    ∙ ap (λ o. removed o (walk d) (c ∷ p) (k ∷ q)) (sym (walk-subtree d (c ∷ p)))

walk_if :
    (b : Bool) (x y : Option DiskUsage × DiskUsage) (q : List String)
    → walk (if b then x else y).1 q ≡ (if b then walk x.1 q else walk y.1 q)
walk_if true x y q = refl
walk_if false x y q = refl

pub walk-apply :
    (op : Op) (d : DiskUsage) (q : List String) → walk (apply op d) q ≡ spec op (walk d) q
unfolding remove_path
walk-apply (resize_along p delta) d q = size-update_size_slice d p delta q
walk-apply (remove_at []) d q = refl
walk-apply (remove_at (c ∷ p)) d q =
    walk_if (is_root (c ∷ p)) (none, d) (recursive_remove d c p) q
    ∙ ap (λ n. if is_root (c ∷ p) then walk d q else n) (walk-removed d c p q)

-- The tree implements the table: after any run of resizes and removals, the sizes that the tree
-- answers are those that the same run makes of the table of the sizes that it answered before.
pub walk-run : (ops : List Op) (d : DiskUsage) → walk (run ops d) ≡ run_spec ops (walk d)
walk-run [] d = refl
walk-run (op ∷ ops) d = walk-run ops (apply op d) ∙ ap (run_spec ops) (fun_ext (walk-apply op d))
