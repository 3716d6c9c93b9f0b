-- ===== src/Cap/Tests.antt =====
-- Runs on a server below /var/srv that holds a world with one file, and a directory that is locked.
use cyrogopus.Prelude.{
  String, Bool, true, false, none, some, List, [], ◌∷◌, ◌≡◌, refl, arith, str_eq,
}
use cyrogopus.Cap.{root_dir, parent_dir, normal, PathBuf, CapFilesystem, resolve_path, resolve_onto}
use cyrogopus.Cap.Requests.{to_rename, perform, IsInside, IsInside-perform}
use cyrogopus.Cap.ReadDir.{Entry}
use cyrogopus.Cap.Walk.{file, folder, unreadable, Listing, end, item, collect, new}
use cyrogopus.Cap.Walk.Preorder.{preorder, collect-preorder}

abbrev srv : CapFilesystem
srv = record { base_path = root_dir ∷ normal "var" ∷ normal "srv" ∷ []; inner = some 7 }

-- ../../etc/passwd
abbrev escape : PathBuf
escape = parent_dir ∷ parent_dir ∷ normal "etc" ∷ normal "passwd" ∷ []

IsInside-perform_example :
    IsInside srv (perform srv (to_rename escape srv (root_dir ∷ parent_dir ∷ normal "b" ∷ [])))
IsInside-perform_example =
    IsInside-perform srv (to_rename escape srv (root_dir ∷ parent_dir ∷ normal "b" ∷ [])) refl
      (refl, refl)

escape_stays : resolve_path escape ≡ normal "etc" ∷ normal "passwd" ∷ []
unfolding resolve_onto
escape_stays = refl

abbrev world : PathBuf
world = normal "world" ∷ parent_dir ∷ normal "logs" ∷ []

abbrev entries : List Entry
entries = some (true, "world") ∷ some (false, "log") ∷ none ∷ some (false, "lost") ∷ []

abbrev tree : Listing
tree =
    item "world" (folder (item "region" file (item "session.lock" file end)))
      (item "locked" unreadable (item "log" file end))

abbrev is_lock : List String → Bool → Bool
is_lock (d ∷ f ∷ []) is_dir = str_eq f "session.lock"
is_lock _ _ = false

collect-preorder_example : collect is_lock 5 (new [] tree) ≡ some (preorder is_lock [] tree)
unfolding preorder
collect-preorder_example = collect-preorder is_lock [] tree 5 (omega arith)
