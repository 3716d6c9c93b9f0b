-- ===== src/Cap/Spelling.antt =====
-- application/src/server/filesystem/cap/mod.rs: the spellings of a path that name the same place.
use cyrogopus.Prelude.{
  String, true, false, none, some, List, [], ◌∷◌, ◌++◌, map, ◌≡◌, refl, arith, sym, ap, ◌∙◌, all,
  str_eq_refl,
}
use mathlib.Core.List.{append-nil}
use cyrogopus.Cap.{
  Component, root_dir, cur_dir, parent_dir, normal, PathBuf, is_empty, next_back, pop,
  resolve_component, resolve_onto, resolve_path, strip_prefix, same_component, CapFilesystem,
  relative_path,
}
use cyrogopus.Cap.Confine.{is_name, is_inner}

resolve_onto-append :
    (r p q : PathBuf) → resolve_onto r (p ++ q) ≡ resolve_onto (resolve_onto r p) q
unfolding resolve_onto
resolve_onto-append r [] q = refl
resolve_onto-append r (c ∷ p) q = resolve_onto-append (resolve_component r c) p q

next_back-snoc : (p : PathBuf) (c : Component) → next_back (p ++ (c ∷ [])) ≡ some c
unfolding next_back
next_back-snoc [] c = refl
next_back-snoc (d ∷ []) c = refl
next_back-snoc (d ∷ e ∷ p) c = next_back-snoc (e ∷ p) c

pop-snoc : (p : PathBuf) (c : Component) → pop (p ++ (c ∷ [])) ≡ p
unfolding pop
pop-snoc [] c = refl
pop-snoc (d ∷ []) c = refl
pop-snoc (d ∷ e ∷ p) c = ap (λ r. d ∷ r) (pop-snoc (e ∷ p) c)

is_empty-snoc : (p : PathBuf) (c : Component) → is_empty (p ++ (c ∷ [])) ≡ false
is_empty-snoc [] c = refl
is_empty-snoc (d ∷ p) c = refl

-- A name and the `..` behind it undo each other.
resolve_component-undo :
    (r : PathBuf) (a : String) → resolve_component (resolve_component r (normal a)) parent_dir ≡ r
resolve_component-undo r a =
    rw (is_empty-snoc r (normal a)) (rw (next_back-snoc r (normal a)) (pop-snoc r (normal a)))

resolve_path-cancel :
    (p q : PathBuf) (a : String)
    → resolve_path (p ++ normal a ∷ parent_dir ∷ q) ≡ resolve_path (p ++ q)
unfolding resolve_onto
resolve_path-cancel p q a =
    resolve_onto-append [] p (normal a ∷ parent_dir ∷ q)
    ∙ ap (λ r. resolve_onto r q) (resolve_component-undo (resolve_onto [] p) a)
    ∙ sym (resolve_onto-append [] p q)

append_one : (r : PathBuf) (c : Component) (p : PathBuf) → (r ++ (c ∷ [])) ++ p ≡ r ++ c ∷ p
append_one [] c p = refl
append_one (d ∷ r) c p = ap (λ s. d ∷ s) (append_one r c p)

all_names-map : (names : List String) → all is_name (map normal names) ≡ true
all_names-map [] = refl
all_names-map (a ∷ names) = all_names-map names

resolve_onto-names : (r p : PathBuf) → all is_name p ≡ true → resolve_onto r p ≡ r ++ p
unfolding resolve_onto
resolve_onto-names r [] h = sym (append-nil r)
resolve_onto-names r (normal a ∷ p) h =
    resolve_onto-names (r ++ (normal a ∷ [])) p h ∙ append_one r (normal a) p
resolve_onto-names r (root_dir ∷ p) h = ground arith
resolve_onto-names r (cur_dir ∷ p) h = ground arith
resolve_onto-names r (parent_dir ∷ p) h = ground arith

-- `resolve_path` keeps a list of names, drops a `..` at the start, and drops a name with the `..`
-- behind it wherever the two stand.
resolve_path_lem :
    (names : List String) (p q : PathBuf) (a : String)
    → (resolve_path (map normal names) ≡ map normal names)
      × (resolve_path (parent_dir ∷ q) ≡ resolve_path q)
      × (resolve_path (p ++ normal a ∷ parent_dir ∷ q) ≡ resolve_path (p ++ q))
unfolding resolve_onto
resolve_path_lem names p q a = (
  resolve_onto-names [] (map normal names) (all_names-map names),
  refl,
  resolve_path-cancel p q a,
)

same_component_refl : (c : Component) → same_component c c ≡ true
same_component_refl root_dir = refl
same_component_refl cur_dir = refl
same_component_refl parent_dir = refl
same_component_refl (normal a) = str_eq_refl a

strip_prefix-append : (q p : PathBuf) → strip_prefix q (q ++ p) ≡ some p
unfolding strip_prefix
strip_prefix-append [] p = refl
strip_prefix-append (c ∷ q) p = rw (same_component_refl c) (strip_prefix-append q p)

strip_prefix-inner : (q p : PathBuf) → all is_inner p ≡ true → strip_prefix (root_dir ∷ q) p ≡ none
unfolding strip_prefix
strip_prefix-inner q [] h = refl
strip_prefix-inner q (normal a ∷ p) h = refl
strip_prefix-inner q (parent_dir ∷ p) h = refl
strip_prefix-inner q (root_dir ∷ p) h = ground arith
strip_prefix-inner q (cur_dir ∷ p) h = refl

strip_prefix-root : (p : PathBuf) → strip_prefix (root_dir ∷ []) (root_dir ∷ p) ≡ some p
unfolding strip_prefix
strip_prefix-root p = refl

-- Below an absolute base path, a relative path `p` names the same place when it is written behind
-- the base path, as it is, or behind the root where that spelling does not lie below the base path.
relative_path-same :
    (fs : CapFilesystem) (base p : PathBuf)
    → fs.base_path ≡ root_dir ∷ base
    → all is_inner p ≡ true
    → strip_prefix (root_dir ∷ base) (root_dir ∷ p) ≡ none
    → (relative_path fs ((root_dir ∷ base) ++ p) ≡ resolve_path p)
      × (relative_path fs p ≡ resolve_path p)
      × (relative_path fs (root_dir ∷ p) ≡ resolve_path p)
relative_path-same fs base p b h n = (
  rw b (rw (strip_prefix-append (root_dir ∷ base) p) refl),
  rw b (rw (strip_prefix-inner base p h) (rw (strip_prefix-inner [] p h) refl)),
  rw b (rw n (rw (strip_prefix-root p) refl)),
)
