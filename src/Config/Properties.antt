-- ===== src/Config/Properties.antt =====
-- application/src/server/configuration/process.rs: the properties file, line by line. A replacement
-- comes with what `lookup_value` answers for its value.
pub mod Entry
pub mod Lines
pub mod Edit
use cyrogopus.Prelude.{
  Bool, true, false, not, ◌&&◌, ◌||◌, List, [], ◌∷◌, ◌++◌, Option, none, some, map, if◌then◌else◌,
}
use cyrogopus.Config.Text.{
  Text, is_empty, trim, starts_with_char, same_text, split_once, has_text, lines, join_lines,
}

pub record Replacement : Type 0 where
  pub match_key : Text
  pub if_value : Option Text
  pub value : Option Text

abbrev pub format : Text → Text → Text
format key value = key ++ 61 ∷ value

-- The lines that are kept: empty ones and comments.
abbrev pub is_comment : Text → Bool
is_comment line = is_empty (trim line) || starts_with_char 35 (trim line)

-- The key and the value of a line.
unfoldable pub entry : Text → Option (Text × Text)
entry line =
    if is_comment line
    then none
    else elim (split_once 61 line) [ none ↦ none | some (a, b) ↦ some (trim a, b) ]

-- Whether a value is another one than a replacement asks for.
abbrev pub is_other : Option Text → Text → Bool
is_other none value = false
is_other (some wanted) value = not (same_text value wanted)

-- The loop over the replacements, for a line with a key and a value.
unfoldable pub replace : List Replacement → Text → Text → Text → Text
replace [] key original line = line
replace (r ∷ rs) key original line =
    let rest = replace rs key original line in
    if same_text r.match_key key
    then (if is_other r.if_value original
        then rest
        else elim (r.value) [ none ↦ rest | some v ↦ format key v ])
    else rest

unfoldable pub update_line : List Replacement → Text → Text
update_line rs line = elim (entry line) [ none ↦ line | some (k, w) ↦ replace rs k w line ]

-- `processed_keys`.
unfoldable pub keys : List Text → List Text
keys [] = []
keys (line ∷ lines) = elim (entry line) [ none ↦ keys lines | some (k, w) ↦ k ∷ keys lines ]

unfoldable pub missing : List Text → List Replacement → List Text
missing processed [] = []
missing processed (r ∷ rs) =
    let rest = missing processed rs in
    if has_text r.match_key processed
    then rest
    else elim (r.value) [ none ↦ rest | some v ↦ format r.match_key v ∷ rest ]

unfoldable pub edit_properties : List Replacement → List Text → List Text
edit_properties rs lines = map (update_line rs) lines ++ missing (keys lines) rs

unfoldable pub process_properties_file : List Replacement → Text → Text
process_properties_file rs content = join_lines (edit_properties rs (lines content))
