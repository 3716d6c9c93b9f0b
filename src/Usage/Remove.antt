-- ===== src/Usage/Remove.antt =====
-- application/src/server/filesystem/usage.rs: what `recursive_remove` gives back and what it
-- leaves.
use cyrogopus.Prelude.{
  ℕ, String, false, Option, none, some, List, [], ◌∷◌, ◌≡◌, refl, sym, ◌∙◌, arith, eq_iff, inl, inr,
  ◌-◌, str_eq, str_eq_refl, unwrap_or, if◌then◌else◌, is_prefix, Bool-cases, Option-cases,
}
use mathlib.Core.Option
use cyrogopus.Prelude.Words.{saturating_add}
use cyrogopus.Usage.{
  DiskUsage, node, Entries, fresh, get_entry, walk, size, shrink, recursive_remove, graft,
  remove_path, add_directory, is_root,
}
use cyrogopus.Usage.Entry.{get-insert, get-insert_self, get-remove}
use cyrogopus.Usage.Update.{walk_from, walk-cons, walk-nil}

-- The directory at a path, if it has an entry: a lookup that changes nothing.
unfoldable pub subtree : DiskUsage → List String → Option DiskUsage
subtree d [] = some d
subtree (node s es) (c ∷ p) = elim (get_entry c es) [ none ↦ none | some u ↦ subtree u p ]

-- What is removed is the directory that stood at the path, and nothing where there was none.
pub recursive_remove-result :
    (d : DiskUsage) (c : String) (p : List String) → (recursive_remove d c p).0 ≡ subtree d (c ∷ p)
unfolding recursive_remove subtree
recursive_remove-result (node s es) c [] = ground arith
recursive_remove-result (node s es) c (k ∷ p) = elim (Option-cases (get_entry c es)) [
  | inl e ↦ rw (e, recursive_remove, subtree) refl
  | inr (u, e) ↦ rw (e, recursive_remove, subtree) (recursive_remove-result u k p)
]

pub size-recursive_remove :
    (d : DiskUsage) (c : String) (p : List String) → size (recursive_remove d c p).1 ≡ size d
unfolding recursive_remove
size-recursive_remove (node s es) c [] = ground arith
size-recursive_remove (node s es) c (k ∷ p) = ground arith

size-graft :
    (d : DiskUsage) (c : String) (p : List String) (source : DiskUsage)
    → size (graft d c p source) ≡ saturating_add (size d) (size source)
unfolding graft
size-graft (node s es) c [] source = refl
size-graft (node s es) c (k ∷ p) source = refl

-- Adding a directory and removing it gives the directory back.
pub remove-graft :
    (d : DiskUsage) (c : String) (p : List String) (source : DiskUsage)
    → (recursive_remove (graft d c p source) c p).0 ≡ some source
unfolding recursive_remove graft
remove-graft (node s es) c [] source = rw (get-insert_self, recursive_remove) refl
remove-graft (node s es) c (k ∷ p) source =
    rw (get-insert_self, recursive_remove)
      (remove-graft (unwrap_or (get_entry c es) fresh) k p source)

-- What a directory's size is after its part at `p` was removed.
abbrev pub size_after : Option DiskUsage → List String → List String → Option ℕ → Option ℕ
size_after none p q before = before
size_after (some removed) p q before =
    if is_prefix p q
    then none
    else if is_prefix q p
    then Option.map (λ s. s - size removed) before
    else before

walk-shrink :
    (o : Option DiskUsage) (d : DiskUsage) (c : String) (q : List String)
    → walk (shrink o d) (c ∷ q) ≡ walk d (c ∷ q)
unfolding walk
walk-shrink none d c q = refl
walk-shrink (some r) (node s es) c q = refl

size-shrink :
    (o : Option DiskUsage) (d : DiskUsage) (n : String) (p : List String)
    → walk (shrink o d) [] ≡ size_after o (n ∷ p) [] (some (size d))
size-shrink none d n p = walk-nil d
size-shrink (some r) (node s es) n p = rw walk-nil refl

below :
    (u : DiskUsage) (n : String) (p q : List String)
    → ((k : String) (r : List String)
        → walk (recursive_remove u n p).1 (k ∷ r)
          ≡ size_after (subtree u (n ∷ p)) (n ∷ p) (k ∷ r) (walk u (k ∷ r)))
    → walk (shrink (recursive_remove u n p).0 (recursive_remove u n p).1) q
      ≡ size_after (subtree u (n ∷ p)) (n ∷ p) q (walk u q)
below u n p [] ih = rw (recursive_remove-result u n p) (
    rw (size-shrink (subtree u (n ∷ p)) _ n p)
      (rw (size-recursive_remove u n p) (rw (walk-nil u) refl)))
below u n p (k ∷ r) ih = rw walk-shrink (ih k r)

size_after-cons :
    (o : Option DiskUsage) (c : String) (p q : List String) (before : Option ℕ)
    → size_after o (c ∷ p) (c ∷ q) before ≡ size_after o p q before
size_after-cons none c p q before = refl
size_after-cons (some r) c p q before = rw str_eq_refl refl

size_after-ne :
    (o : Option DiskUsage) (c k : String) (p q : List String) (before : Option ℕ)
    → str_eq c k ≡ false
    → size_after o (c ∷ p) (k ∷ q) before ≡ before
size_after-ne none c k p q before h = refl
size_after-ne (some r) c k p q before h = ground (arith, eq_iff c k, eq_iff k c)

at_key :
    (es : Entries) (c n : String) (p : List String) (k : String) (q : List String) (u : DiskUsage)
    → get_entry c es ≡ some u
    → walk (shrink (recursive_remove u n p).0 (recursive_remove u n p).1) q
      ≡ size_after (subtree u (n ∷ p)) (n ∷ p) q (walk u q)
    → walk_from
        (if str_eq c k
          then some (shrink (recursive_remove u n p).0 (recursive_remove u n p).1)
          else get_entry k es)
        q
      ≡ size_after (subtree u (n ∷ p)) (c ∷ n ∷ p) (k ∷ q) (walk_from (get_entry k es) q)
at_key es c n p k q u e h = elim (Bool-cases (str_eq c k)) [
  | inl same ↦
      rw (← (eq_iff c k).0 same)
        (rw (str_eq_refl c) (rw e (h ∙ sym (size_after-cons _ c (n ∷ p) q (walk u q)))))
  | inr other ↦ rw other (rw (size_after-ne _ c k (n ∷ p) q _ other) refl)
]

-- After a removal, the removed directory and all below it have no size; each directory above it,
-- the root excepted, has lost the removed size; every other size is as before.
pub walk-recursive_remove :
    (d : DiskUsage) (c : String) (p : List String) (k : String) (q : List String)
    → walk (recursive_remove d c p).1 (k ∷ q)
      ≡ size_after (subtree d (c ∷ p)) (c ∷ p) (k ∷ q) (walk d (k ∷ q))
unfolding recursive_remove subtree
walk-recursive_remove (node s es) c [] k q = elim (Option-cases (get_entry c es)) [
  | inl e ↦ rw (e, recursive_remove, subtree) refl
  | inr (u, e) ↦
      rw (e, recursive_remove, subtree)
        (rw (walk-cons s _ k q)
          (rw get-remove (rw (walk-cons s es k q) (ground (arith, eq_iff c k, eq_iff k c)))))
]
walk-recursive_remove (node s es) c (n ∷ p) k q = elim (Option-cases (get_entry c es)) [
  | inl e ↦ rw (e, recursive_remove, subtree) refl
  | inr (u, e) ↦
      rw (e, recursive_remove, subtree)
        (rw (walk-cons s _ k q) (
          rw get-insert (
            rw (walk-cons s es k q)
              (at_key es c n p k q u e (below u n p q (walk-recursive_remove u n p))))))
]

-- A directory that is added at a path other than the root's and removed again is given back, and
-- the size of the root stays grown by its size: an addition grows the root, a removal does not
-- shrink it.
remove_path-add_directory :
    (d : DiskUsage) (c : String) (p : List String) (source : DiskUsage)
    → is_root (c ∷ p) ≡ false
    → let removed = remove_path (add_directory d (c ∷ p) source).0 (c ∷ p) in
      (removed.0 ≡ some source) × (size removed.1 ≡ saturating_add (size d) (size source))
unfolding remove_path add_directory
remove_path-add_directory d c p source h = rw h (
  remove-graft d c p source,
  size-recursive_remove (graft d c p source) c p ∙ size-graft d c p source,
)
