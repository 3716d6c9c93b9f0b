-- ===== src/Config/Xml.antt =====
-- application/src/server/configuration/process.rs: the XML file, which is edited as a text.
use cyrogopus.Prelude.{
  ℕ, Bool, true, false, ◌&&◌, List, [], ◌∷◌, ◌++◌, none, some, ◌==◌, if◌then◌else◌,
}
use cyrogopus.Config.Text.{Text, is_empty, trim, contains, split_first, split_last}
use cyrogopus.Config.Properties.{Replacement}

-- The parts of a match between its slashes that are not empty.
abbrev cons_part : ℕ → List Text → List Text
cons_part c [] = (c ∷ []) ∷ []
cons_part c (p ∷ ps) = (c ∷ p) ∷ ps

unfoldable pub split_slashes : Text → List Text
split_slashes [] = [] ∷ []
split_slashes (c ∷ cs) =
    let rest = split_slashes cs in if c == 47 then [] ∷ rest else cons_part c rest

unfoldable pub non_empty : List Text → List Text
non_empty [] = []
non_empty (p ∷ ps) = let rest = non_empty ps in if is_empty p then rest else p ∷ rest

abbrev pub start_tag : Text → Text
start_tag name = 60 ∷ name ++ 62 ∷ []

abbrev pub end_tag : Text → Text
end_tag name = 60 ∷ 47 ∷ name ++ 62 ∷ []

-- "</root>", and the document without content.
abbrev pub root_end : Text
root_end = end_tag (b'r' ∷ b'o' ∷ b'o' ∷ b't' ∷ [])

-- The text between the first start tag and the end tag behind it.
unfoldable pub set_element : Text → Text → Text → Text
set_element name value xml = elim (split_first (start_tag name) xml) [
  | none ↦ xml
  | some (before, rest) ↦ elim (split_first (end_tag name) rest) [
    | none ↦ xml
    | some (old, after) ↦ before ++ start_tag name ++ value ++ end_tag name ++ after
  ]
]

-- A new element before the last end tag of the root.
unfoldable pub add_element : Text → Text → Text → Text
add_element name value xml = elim (split_last root_end xml) [
  | none ↦ xml
  | some (before, after) ↦
      before ++ (10 ∷ 32 ∷ 32 ∷ start_tag name) ++ value ++ end_tag name ++ (10 ∷ root_end) ++ after
]

-- One replacement with its value; `last` is the last of the parts, and `single` whether it is the
-- only one.
abbrev pub replace_element : Text → Bool → Text → Text → Text
replace_element last single value xml =
    if contains (start_tag last) xml && contains (end_tag last) xml
    then set_element last value xml
    else if single
    then add_element last value xml
    else xml

unfoldable pub replace_parts : List Text → Bool → Text → Text → Text
replace_parts [] single value xml = xml
replace_parts (p ∷ []) single value xml = replace_element p single value xml
replace_parts (p ∷ q ∷ ps) single value xml = replace_parts (q ∷ ps) false value xml

unfoldable pub replace_all : List Replacement → Text → Text
replace_all [] xml = xml
replace_all (r ∷ rs) xml = elim (r.value) [
  | none ↦ replace_all rs xml
  | some v ↦ replace_all rs (replace_parts (non_empty (split_slashes r.match_key)) true v xml)
]

-- `document` is the text that stands in for a file without content.
unfoldable pub process_xml_file : Text → List Replacement → Text → Text
process_xml_file document rs content =
    replace_all rs (if is_empty (trim content) then document else content)
