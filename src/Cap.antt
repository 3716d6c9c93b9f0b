-- ===== src/Cap.antt =====
-- application/src/server/filesystem/cap/mod.rs: paths as the lists of their components, and the
-- resolution of a path that a caller names. A `PathBuf` of Rust compares, strips and iterates by
-- components; `components()` yields the root and `.` in the first place only.
mod Calls
mod Confine
mod Spelling
mod Requests
pub mod ReadDir
mod Walk
mod Tests
use cyrogopus.Prelude.{
  ℕ, String, Bool, true, false, Option, none, some, List, [], ◌∷◌, ◌++◌, ◌&&◌, not, str_eq,
  if◌then◌else◌,
}

-- std::path::Component on unix, where no path has a prefix.
pub data Component : Type 0 where
  root_dir : Component
  cur_dir : Component
  parent_dir : Component
  normal : String → Component

abbrev pub PathBuf : Type 0
PathBuf = List Component

abbrev pub same_component : Component → Component → Bool
same_component root_dir root_dir = true
same_component cur_dir cur_dir = true
same_component parent_dir parent_dir = true
same_component (normal a) (normal b) = str_eq a b
same_component _ _ = false

abbrev pub is_empty : PathBuf → Bool
is_empty [] = true
is_empty (c ∷ p) = false

-- components().next_back().
unfoldable pub next_back : PathBuf → Option Component
next_back [] = none
next_back (c ∷ []) = some c
next_back (c ∷ d ∷ p) = next_back (d ∷ p)

abbrev pub is_root_dir : Option Component → Bool
is_root_dir (some root_dir) = true
is_root_dir _ = false

-- PathBuf::pop, of a path that has a component to lose.
unfoldable pub pop : PathBuf → PathBuf
pop [] = []
pop (c ∷ []) = []
pop (c ∷ d ∷ p) = c ∷ pop (d ∷ p)

-- PathBuf::push of one component: the root replaces what is there, and a `.` behind another
-- component is not a component of the result.
abbrev pub push : PathBuf → Component → PathBuf
push p root_dir = root_dir ∷ []
push [] cur_dir = cur_dir ∷ []
push (c ∷ p) cur_dir = c ∷ p
push p parent_dir = p ++ (parent_dir ∷ [])
push p (normal a) = p ++ (normal a ∷ [])

-- The body of the loop of resolve_path.
abbrev pub resolve_component : PathBuf → Component → PathBuf
resolve_component result parent_dir =
    if not (is_empty result) && not (is_root_dir (next_back result)) then pop result else result
resolve_component result c = push result c

unfoldable pub resolve_onto : PathBuf → PathBuf → PathBuf
resolve_onto result [] = result
resolve_onto result (c ∷ p) = resolve_onto (resolve_component result c) p

abbrev pub resolve_path : PathBuf → PathBuf
resolve_path p = resolve_onto [] p

-- PathBuf::strip_prefix: `none` where the first path is not a prefix of the second.
unfoldable pub strip_prefix : PathBuf → PathBuf → Option PathBuf
strip_prefix [] p = some p
strip_prefix (c ∷ q) [] = none
strip_prefix (c ∷ q) (d ∷ p) = if same_component c d then strip_prefix q p else none

-- `inner` is the descriptor of the directory that cap-std has opened.
pub record CapFilesystem : Type 0 where
  pub base_path : PathBuf
  pub inner : Option ℕ

abbrev pub new_uninitialized : PathBuf → CapFilesystem
new_uninitialized p = record { base_path = p; inner = none }

-- The branches of relative_path, on what strip_prefix answers for the base and for the root.
abbrev pub stripped : Option PathBuf → Option PathBuf → PathBuf → PathBuf
stripped (some q) r p = q
stripped none (some q) p = q
stripped none none p = p

abbrev pub relative_path : CapFilesystem → PathBuf → PathBuf
relative_path fs p =
    resolve_path (stripped (strip_prefix fs.base_path p) (strip_prefix (root_dir ∷ []) p) p)
