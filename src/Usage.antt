-- ===== src/Usage.antt =====
-- application/src/server/filesystem/usage.rs: the tree of directory sizes that a server's
-- filesystem keeps. A path is the list of its components' names (`Path::components`, where the
-- root directory is the component "/"); names are UTF-8. A `HashMap<String, DiskUsage>` is an
-- association list, whose order nothing reads.
mod Entry
pub mod Update
pub mod Remove
pub mod Sizes
mod Tests
use cyrogopus.Prelude.{
  ℕ, suc, String, Bool, true, false, Option, none, some, List, [], ◌∷◌, str_eq, unwrap_or,
  if◌then◌else◌,
}
use cyrogopus.Prelude.Int.{ℤ, pos, negsuc}
use cyrogopus.Prelude.Words.{saturating_add, saturating_sub}

mutual
  pub data DiskUsage : Type 0 where
    node : ℕ → Entries → DiskUsage

  pub data Entries : Type 0 where
    empty : Entries
    entry : String → DiskUsage → Entries → Entries

abbrev pub size : DiskUsage → ℕ
size (node s es) = s

abbrev pub entries : DiskUsage → Entries
entries (node s es) = es

-- `DiskUsage::default()`.
abbrev pub fresh : DiskUsage
fresh = node 0 empty

-- HashMap::get, insert and remove.
unfoldable pub get_entry : String → Entries → Option DiskUsage
get_entry k empty = none
get_entry k (entry j d es) = if str_eq j k then some d else get_entry k es

unfoldable pub insert_entry : String → DiskUsage → Entries → Entries
insert_entry k d empty = entry k d empty
insert_entry k d (entry j e es) =
    if str_eq j k then entry j d es else entry j e (insert_entry k d es)

unfoldable pub remove_entry : String → Entries → Entries
remove_entry k empty = empty
remove_entry k (entry j e es) =
    let rest = remove_entry k es in if str_eq j k then rest else entry j e rest

-- `path == Path::new("") || path == Path::new("/")`.
abbrev pub is_root : List String → Bool
is_root [] = true
is_root (c ∷ []) = str_eq c "/"
is_root (c ∷ d ∷ p) = false

-- The loop of `get_size`: down the tree, one entry for each component.
unfoldable pub walk : DiskUsage → List String → Option ℕ
walk (node s es) [] = some s
walk (node s es) (c ∷ p) = elim (get_entry c es) [ none ↦ none | some d ↦ walk d p ]

unfoldable pub get_size : DiskUsage → List String → Option ℕ
unfolding walk
get_size d p = if is_root p then some (size d) else walk d p

-- The change of one entry's size by an i64.
abbrev pub adjust : ℕ → ℤ → ℕ
adjust s (pos n) = saturating_add s n
adjust s (negsuc n) = saturating_sub s (suc n)

abbrev pub resize : DiskUsage → ℤ → DiskUsage
resize (node s es) delta = node (adjust s delta) es

-- The loop of the two update functions: each component's entry, created if it is not there, is
-- resized and becomes the current one.
unfoldable pub update_along : DiskUsage → List String → ℤ → DiskUsage
update_along d [] delta = d
update_along (node s es) (c ∷ p) delta =
    node s
      (insert_entry c (update_along (resize (unwrap_or (get_entry c es) fresh) delta) p delta) es)

unfoldable pub update_size : DiskUsage → List String → ℤ → DiskUsage
unfolding update_along
update_size d p delta = if is_root p then d else update_along d p delta

unfoldable pub update_size_slice : DiskUsage → List String → ℤ → DiskUsage
unfolding update_along
update_size_slice d [] delta = d
update_size_slice d (c ∷ p) delta = update_along d (c ∷ p) delta

-- `usage.size = usage.size.saturating_sub(removed.size)`, where something was removed.
abbrev pub shrink : Option DiskUsage → DiskUsage → DiskUsage
shrink none u = u
shrink (some removed) (node s es) = node (saturating_sub s (size removed)) es

-- `recursive_remove` on the non-empty path `name ∷ rest`: what was removed, and the tree left.
unfoldable pub recursive_remove : DiskUsage → String → List String → Option DiskUsage × DiskUsage
recursive_remove (node s es) name [] = elim (get_entry name es) [
  | none ↦ (none, node s es)
  | some removed ↦ (some removed, node s (remove_entry name es))
]
recursive_remove (node s es) name (next ∷ rest) = elim (get_entry name es) [
  | none ↦ (none, node s es)
  | some usage ↦
      let r = recursive_remove usage next rest in
      (r.0, node s (insert_entry name (shrink r.0 r.1) es))
]

unfoldable pub remove_path : DiskUsage → List String → Option DiskUsage × DiskUsage
unfolding recursive_remove
remove_path d [] = (none, d)
remove_path d (c ∷ p) = if is_root (c ∷ p) then (none, d) else recursive_remove d c p

unfoldable pub clear : DiskUsage → DiskUsage
clear (node s es) = node s empty

-- `add_directory` on the non-empty path `name ∷ rest`: every directory above the new one grows.
unfoldable pub graft : DiskUsage → String → List String → DiskUsage → DiskUsage
graft (node s es) name [] source =
    node (saturating_add s (size source)) (insert_entry name source es)
graft (node s es) name (next ∷ rest) source =
    node (saturating_add s (size source))
      (insert_entry name (graft (unwrap_or (get_entry name es) fresh) next rest source) es)

unfoldable pub add_directory : DiskUsage → List String → DiskUsage → DiskUsage × Bool
unfolding graft
add_directory d [] source = (d, false)
add_directory d (c ∷ p) source = (graft d c p source, true)
