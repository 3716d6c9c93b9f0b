-- ===== src/Config/Ini.antt =====
-- application/src/server/configuration/process.rs: the ini file. The first pass finds where the keys
-- of the file stand, the second writes the values there or behind the last line.
pub mod Positions
pub mod Edit
pub mod Owner
pub mod Kinds
pub mod File
pub mod Lines
use cyrogopus.Prelude.{
  ℕ, suc, zero, Bool, true, false, ◌||◌, ◌&&◌, ◌+◌, List, [], ◌∷◌, ◌++◌, Option, none, some,
  if◌then◌else◌,
}
use cyrogopus.Config.Text.{
  Text, is_empty, trim, starts_with_char, ends_with_char, same_text, split_once, has_text, lines,
  join_lines,
}
use cyrogopus.Config.Properties.{Replacement, format}

-- `line[1..line.len() - 1]`.
unfoldable pub init : Text → Text
init [] = []
init (c ∷ []) = []
init (c ∷ d ∷ cs) = c ∷ init (d ∷ cs)

abbrev pub inner : Text → Text
inner [] = []
inner (c ∷ cs) = init cs

abbrev pub is_comment : Text → Bool
is_comment line = is_empty (trim line) || starts_with_char 59 line || starts_with_char 35 line

abbrev pub is_header : Text → Bool
is_header line = starts_with_char 91 line && ends_with_char 93 line

abbrev pub full_key : Text → Text → Text
full_key section key = if is_empty section then key else section ++ 46 ∷ key

abbrev put_key : Text → ℕ → Option (Text × Text) → List (Text × ℕ) → List (Text × ℕ)
put_key section i none rest = rest
put_key section i (some (key, value)) rest = (full_key section (trim key), i) ∷ rest

-- `processed_keys`, from the line with the index `i` on, in the order of the lines.
unfoldable pub positions : Text → ℕ → List Text → List (Text × ℕ)
positions section i [] = []
positions section i (line ∷ lines) =
    let rest = positions section (suc i) lines in
    if is_comment line
    then rest
    else if is_header line
    then positions (inner line) (suc i) lines
    else put_key section i (split_once 61 line) rest

-- A later insertion takes the place of an earlier one.
unfoldable pub position_of : Text → List (Text × ℕ) → Option ℕ
position_of key [] = none
position_of key ((k, i) ∷ ps) = elim (position_of key ps) [
  | none ↦ if same_text k key then some i else none
  | some j ↦ some j
]

unfoldable pub set_line : ℕ → Text → List Text → List Text
set_line i line [] = []
set_line zero line (l ∷ lines) = line ∷ lines
set_line (suc i) line (l ∷ lines) = l ∷ set_line i line lines

-- The lines, and the sections whose header was added.
abbrev pub Written : Type 0
Written = List Text × List Text

-- A key that the file does not have, behind the header of its section.
abbrev pub add_key : Text → Text → Text → Written → Written
add_key section key value (lines, sections) =
    if has_text section sections
    then (lines ++ (format key value ∷ []), sections)
    else (lines ++ ((91 ∷ section ++ (93 ∷ [])) ∷ format key value ∷ []), section ∷ sections)

-- One replacement with its value; its parts are those around the first dot.
abbrev pub write_at : Option ℕ → Option (Text × Text) → Text → Text → Written → Written
write_at (some i) (some (section, key)) whole value (lines, sections) =
    (set_line i (format key value) lines, sections)
write_at (some i) none whole value (lines, sections) =
    (set_line i (format whole value) lines, sections)
write_at none (some (section, key)) whole value w = add_key section key value w
write_at none none whole value (lines, sections) = (lines ++ (format whole value ∷ []), sections)

unfoldable pub write_all : List (Text × ℕ) → List Replacement → Written → Written
write_all ps [] w = w
write_all ps (r ∷ rs) w = elim (r.value) [
  | none ↦ write_all ps rs w
  | some v ↦
      write_all ps rs
        (write_at (position_of r.match_key ps) (split_once 46 r.match_key) r.match_key v w)
]

unfoldable pub edit_ini : List Replacement → List Text → List Text
edit_ini rs lines = (write_all (positions [] 0 lines) rs (lines, [])).0

unfoldable pub process_ini_file : List Replacement → Text → Text
process_ini_file rs content = join_lines (edit_ini rs (lines content))
