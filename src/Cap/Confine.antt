-- ===== src/Cap/Confine.antt =====
-- application/src/server/filesystem/cap/mod.rs: where the resolved paths lead.
use cyrogopus.Prelude.{
  String, Bool, true, false, none, some, [], ◌∷◌, ◌++◌, ◌&&◌, not, ◌≡◌, inl, inr, refl, arith, all,
  Bool-cases, Option-cases,
}
use cyrogopus.Cap.{
  Component, root_dir, cur_dir, parent_dir, normal, PathBuf, is_empty, next_back, is_root_dir, pop,
  resolve_component, resolve_onto, resolve_path, strip_prefix, same_component, CapFilesystem,
  stripped, relative_path,
}

abbrev pub is_name : Component → Bool
is_name (normal a) = true
is_name _ = false

-- What may follow the first component of a path.
abbrev pub is_inner : Component → Bool
is_inner (normal a) = true
is_inner parent_dir = true
is_inner _ = false

-- The lists that `components()` yields.
abbrev pub is_path : PathBuf → Bool
is_path [] = true
is_path (c ∷ p) = all is_inner p

-- A path that leads nowhere but down: names, behind at most one `.`.
abbrev pub is_confined : PathBuf → Bool
is_confined [] = true
is_confined (cur_dir ∷ p) = all is_name p
is_confined (c ∷ p) = is_name c && all is_name p

all_names-snoc :
    (p : PathBuf) (a : String) → all is_name p ≡ true → all is_name (p ++ (normal a ∷ [])) ≡ true
all_names-snoc [] a h = refl
all_names-snoc (c ∷ p) a h = ground (arith, all_names-snoc p a)

all_names-pop : (p : PathBuf) → all is_name p ≡ true → all is_name (pop p) ≡ true
unfolding pop
all_names-pop [] h = refl
all_names-pop (c ∷ []) h = refl
all_names-pop (c ∷ d ∷ p) h = ground (arith, all_names-pop (d ∷ p))

is_confined-snoc :
    (p : PathBuf) (a : String) → is_confined p ≡ true → is_confined (p ++ (normal a ∷ [])) ≡ true
is_confined-snoc [] a h = refl
is_confined-snoc (cur_dir ∷ p) a h = all_names-snoc p a h
is_confined-snoc (normal b ∷ p) a h = all_names-snoc p a h
is_confined-snoc (parent_dir ∷ p) a h = ground arith
is_confined-snoc (root_dir ∷ p) a h = ground arith

is_confined-pop : (p : PathBuf) → is_confined p ≡ true → is_confined (pop p) ≡ true
unfolding pop
is_confined-pop [] h = refl
is_confined-pop (c ∷ []) h = refl
is_confined-pop (cur_dir ∷ d ∷ p) h = all_names-pop (d ∷ p) h
is_confined-pop (normal b ∷ d ∷ p) h = all_names-pop (d ∷ p) h
is_confined-pop (parent_dir ∷ d ∷ p) h = ground arith
is_confined-pop (root_dir ∷ d ∷ p) h = ground arith

is_confined-resolve_component :
    (r : PathBuf) (c : Component)
    → is_confined r ≡ true
    → is_inner c ≡ true
    → is_confined (resolve_component r c) ≡ true
is_confined-resolve_component r (normal a) h i = is_confined-snoc r a h
is_confined-resolve_component r parent_dir h i =
    elim (Bool-cases (not (is_empty r) && not (is_root_dir (next_back r)))) [
      | inl e ↦ rw e (is_confined-pop r h)
      | inr e ↦ rw e h
    ]
is_confined-resolve_component r root_dir h i = ground arith
is_confined-resolve_component r cur_dir h i = ground arith

is_confined-resolve_onto :
    (r p : PathBuf)
    → is_confined r ≡ true
    → all is_inner p ≡ true
    → is_confined (resolve_onto r p) ≡ true
unfolding resolve_onto
is_confined-resolve_onto r [] h i = h
is_confined-resolve_onto r (c ∷ p) h i =
    is_confined-resolve_onto (resolve_component r c) p
      (is_confined-resolve_component r c h (ground arith)) (ground arith)

all_inner-strip_prefix :
    (q p r : PathBuf) → all is_inner p ≡ true → strip_prefix q p ≡ some r → all is_inner r ≡ true
unfolding strip_prefix
all_inner-strip_prefix [] p r i h = ground arith
all_inner-strip_prefix (c ∷ q) [] r i h = ground arith
all_inner-strip_prefix (c ∷ q) (d ∷ p) r i h = elim (Bool-cases (same_component c d)) [
  | inl e ↦ all_inner-strip_prefix q p r (ground arith) (ground arith)
  | inr e ↦ ground arith
]

-- What is left behind a non-empty prefix starts neither with the root nor with a `.`.
strip_prefix-is_inner :
    (c : Component) (q p r : PathBuf)
    → is_path p ≡ true
    → strip_prefix (c ∷ q) p ≡ some r
    → all is_inner r ≡ true
unfolding strip_prefix
strip_prefix-is_inner c q [] r i h = ground arith
strip_prefix-is_inner c q (d ∷ p) r i h = elim (Bool-cases (same_component c d)) [
  | inl e ↦ all_inner-strip_prefix q p r i (ground arith)
  | inr e ↦ ground arith
]

resolve_path-relative :
    (p : PathBuf)
    → is_path p ≡ true
    → strip_prefix (root_dir ∷ []) p ≡ none
    → is_confined (resolve_path p) ≡ true
unfolding resolve_onto strip_prefix
resolve_path-relative [] i h = refl
resolve_path-relative (root_dir ∷ p) i h = ground arith
resolve_path-relative (cur_dir ∷ p) i h = is_confined-resolve_onto (cur_dir ∷ []) p refl i
resolve_path-relative (parent_dir ∷ p) i h = is_confined-resolve_onto [] p refl i
resolve_path-relative (normal a ∷ p) i h = is_confined-resolve_onto (normal a ∷ []) p refl i

is_confined-stripped :
    (base p : PathBuf)
    → is_empty base ≡ false
    → is_path p ≡ true
    → is_confined (resolve_path (stripped (strip_prefix base p) (strip_prefix (root_dir ∷ []) p) p))
      ≡ true
is_confined-stripped [] p h i = ground arith
is_confined-stripped (c ∷ q) p h i = elim (Option-cases (strip_prefix (c ∷ q) p)) [
  | inr (r, e) ↦ rw e (is_confined-resolve_onto [] r refl (strip_prefix-is_inner c q p r i e))
  | inl e ↦ elim (Option-cases (strip_prefix (root_dir ∷ []) p)) [
    | inr (r, f) ↦
        rw e (rw f (is_confined-resolve_onto [] r refl (strip_prefix-is_inner root_dir [] p r i f)))
    | inl f ↦ rw e (rw f (resolve_path-relative p i f))
  ]
]

-- A path that a filesystem with a base path takes relative to it leads nowhere but down.
pub is_confined-relative_path :
    (fs : CapFilesystem) (p : PathBuf)
    → is_empty fs.base_path ≡ false
    → is_path p ≡ true
    → is_confined (relative_path fs p) ≡ true
is_confined-relative_path fs p h i = is_confined-stripped fs.base_path p h i
