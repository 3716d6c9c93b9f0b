-- ===== src/Cap/Walk.antt =====
-- application/src/server/filesystem/cap/utils.rs: the walk over the directories below a path, with
-- its stack of open directories. What the directories hold is a tree that does not change during
-- the walk; an entry whose type cannot be read counts as a file, as in the source.
pub mod Preorder
use cyrogopus.Prelude.{
  ℕ, zero, suc, String, Bool, true, false, Option, none, some, List, [], ◌∷◌, ◌++◌, if◌then◌else◌,
}

-- `unreadable` is a directory that cannot be opened, `bad` an entry that cannot be read.
mutual
  pub data Node : Type 0 where
    file : Node
    folder : Listing → Node
    unreadable : Node

  pub data Listing : Type 0 where
    end : Listing
    item : String → Node → Listing → Listing
    bad : Listing → Listing

-- What next_entry returns.
pub data Item : Type 0 where
  found : Bool → List String → Item
  failed : Item

-- The rest of an open directory, under its path.
abbrev pub Frame : Type 0
Frame = List String × Listing

abbrev pub is_dir : Node → Bool
is_dir file = false
is_dir (folder l) = true
is_dir unreadable = true

-- parent_path.join(name).
abbrev pub join : List String → String → List String
join p n = p ++ (n ∷ [])

-- An entry that is not ignored: what is returned, and what stands on top of the stack after it.
abbrev pub enter : List String → String → Node → Listing → Item × List Frame
enter p n file l = (found false (join p n), (p, l) ∷ [])
enter p n (folder m) l = (found true (join p n), (join p n, m) ∷ (p, l) ∷ [])
enter p n unreadable l = (failed, (p, l) ∷ [])

abbrev pub prepend : Item → Option (List Item) → Option (List Item)
prepend i none = none
prepend i (some is) = some (i ∷ is)

-- `ignored` is whether one of the ignore files matches a path, as the ignore crate decides it.
module _ (ignored : List String → Bool → Bool) where
  -- The rounds of the loop on the directory on top.
  unfoldable pub next_in : List String → Listing → Option (Item × List Frame)
  next_in p end = none
  next_in p (bad l) = some (failed, (p, l) ∷ [])
  next_in p (item n t l) =
      let rest = next_in p l in if ignored (join p n) (is_dir t) then rest else some (enter p n t l)

  -- WalkDir::next_entry, with the top of the stack first.
  unfoldable pub next_entry : List Frame → Option Item × List Frame
  next_entry [] = (none, [])
  next_entry ((p, l) ∷ s) =
      let below = next_entry s in
      elim (next_in p l) [ none ↦ below | some (i, top) ↦ (some i, top ++ s) ]

  -- The callers' `while let Some(entry) = walk.next_entry()`.
  unfoldable pub collect : ℕ → List Frame → Option (List Item)
  collect zero s = none
  collect (suc n) s =
      let (i, rest) = next_entry s in
      let more = collect n rest in elim i [ none ↦ some [] | some x ↦ prepend x more ]

abbrev pub new : List String → Listing → List Frame
new p l = (p, l) ∷ []
