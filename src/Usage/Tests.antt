-- ===== src/Usage/Tests.antt =====
-- Runs on a small tree: a world of 30 bytes, 20 of them in a region.
use cyrogopus.Prelude.{String, some, List, [], ◌∷◌, ◌≡◌, refl, if◌then◌else◌}
use cyrogopus.Prelude.Int.{pos, negsuc}
use cyrogopus.Usage.{
  DiskUsage, node, empty, entry, adjust, walk, get_entry, insert_entry, update_size_slice,
  recursive_remove, remove_path,
}
use cyrogopus.Usage.Sizes.{Op, resize_along, remove_at, run, run_spec, walk-run}
use cyrogopus.Usage.Update.{is_proper_prefix, size_at, size-update_size_slice}
use cyrogopus.Usage.Remove.{subtree, size_after, walk-recursive_remove}

abbrev world : DiskUsage
world = node 30 (entry "region" (node 20 empty) empty)

abbrev tree : DiskUsage
tree = node 0 (entry "world" world empty)

abbrev region : List String
region = "world" ∷ "region" ∷ []

size-update_size_slice_example : walk (update_size_slice tree region (negsuc 24)) region ≡ (
    if is_proper_prefix region region
    then some (adjust (size_at tree region) (negsuc 24))
    else walk tree region)
size-update_size_slice_example = size-update_size_slice tree region (negsuc 24) region

walk-recursive_remove_example :
    walk (recursive_remove tree "world" ("region" ∷ [])).1 ("world" ∷ [])
    ≡ size_after (subtree tree region) region ("world" ∷ []) (walk tree ("world" ∷ []))
walk-recursive_remove_example = walk-recursive_remove tree "world" ("region" ∷ []) "world" []

remove-region : walk (remove_path tree region).1 ("world" ∷ []) ≡ some 10
unfolding remove_path walk get_entry insert_entry
remove-region = refl

abbrev moves : List Op
moves = resize_along region (pos 5) ∷ remove_at region ∷ resize_along ("logs" ∷ []) (pos 3) ∷ []

walk-run_example : walk (run moves tree) ≡ run_spec moves (walk tree)
walk-run_example = walk-run moves tree
