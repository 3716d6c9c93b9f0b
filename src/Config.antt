-- ===== src/Config.antt =====
-- application/src/server/configuration/process.rs: the values that a configuration file is given,
-- and the edit of a JSON document. An array is opaque; a number is an i64 or an opaque float. The other
-- kinds of file, and the update of all files, are in the child modules.
pub mod Edit
pub mod Text
pub mod Properties
pub mod Ini
pub mod Plain
pub mod Xml
pub mod Files
mod Tests
use cyrogopus.Prelude.{
  ℕ, String, Bool, true, false, Option, none, some, List, [], ◌∷◌, str_eq, unwrap_or, is_some,
  if◌then◌else◌,
}
use cyrogopus.Prelude.Int.{ℤ}

pub data Number : Type 0 where
  integer : ℤ → Number
  float : String → Number

mutual
  pub data Value : Type 0 where
    null : Value
    boolean : Bool → Value
    number : Number → Value
    text : String → Value
    array : String → Value
    object : Fields → Value

  pub data Fields : Type 0 where
    empty : Fields
    field : String → Value → Fields → Fields

-- serde_json::Map::get and insert.
unfoldable pub get : String → Fields → Option Value
get k empty = none
get k (field j v fs) = if str_eq j k then some v else get k fs

unfoldable pub insert : String → Value → Fields → Fields
insert k v empty = field k v empty
insert k v (field j w fs) = if str_eq j k then field j v fs else field j w (insert k v fs)

-- What std says of a text: equality without case, and its values as an i64 and as an f64, with
-- whether the f64 has a fraction and whether it is finite.
pub record Parsing : Type 0 where
  pub eq_ignore_ascii_case : String → String → Bool
  pub parse_i64 : String → Option ℤ
  pub parse_f64 : String → Option String
  pub has_fraction : String → Bool
  pub is_finite : String → Bool

abbrev pub float_value : Parsing → String → String → Value
float_value ps value f =
    if ps.has_fraction f
    then (if ps.is_finite f then number (float f) else text value)
    else text value

abbrev pub number_value : Parsing → String → Value
number_value ps value = elim (ps.parse_i64 value) [
  | some i ↦ number (integer i)
  | none ↦ elim (ps.parse_f64 value) [ some f ↦ float_value ps value f | none ↦ text value ]
]

-- The value that a field of an object gets.
unfoldable pub leaf_value : Parsing → String → Value
leaf_value ps value =
    if ps.eq_ignore_ascii_case value "true"
    then boolean true
    else if ps.eq_ignore_ascii_case value "false"
    then boolean false
    else number_value ps value

-- The fields of an object, and none of another value.
abbrev pub fields_of : Value → Option Fields
fields_of (object fs) = some fs
fields_of _ = none

-- The leaf: in an object the parsed value, and in what becomes an object the text itself.
abbrev pub set_leaf : Parsing → Option Fields → String → String → Value
set_leaf ps (some fs) k value = object (insert k (leaf_value ps value) fs)
set_leaf ps none k value = object (insert k (text value) empty)

unfoldable pub update_json_value : Parsing → Value → List String → String → Value
update_json_value ps json [] value = json
update_json_value ps json (k ∷ []) value = set_leaf ps (fields_of json) k value
update_json_value ps json (k ∷ l ∷ path) value =
    let fs = unwrap_or (fields_of json) empty in
    object
      (insert k (update_json_value ps (unwrap_or (get k fs) (object empty)) (l ∷ path) value) fs)

-- The loop of process_json_file, over the paths and what lookup_value answers for each.
unfoldable pub apply_replacements : Parsing → Value → List (List String × Option String) → Value
unfolding update_json_value
apply_replacements ps json [] = json
apply_replacements ps json ((path, none) ∷ rs) = apply_replacements ps json rs
apply_replacements ps json ((path, some value) ∷ rs) =
    apply_replacements ps (update_json_value ps json path value) rs

-- What a placeholder can name, each number as its decimal text.
pub record ServerValues : Type 0 where
  pub memory : String
  pub io_weight : Option String
  pub cpu : String
  pub disk : String
  pub default_port : Option String
  pub default_ip : Option String
  pub environment : String → Option String

-- `server.build.default.` and what follows.
abbrev pub lookup_default : ServerValues → List String → Option String
lookup_default c [] = some ""
lookup_default c (part ∷ parts) =
    if str_eq part "port"
    then c.default_port
    else if str_eq part "ip"
    then c.default_ip
    else some ""

abbrev pub lookup_build : ServerValues → String → List String → Option String
lookup_build c part parts =
    if str_eq part "memory"
    then some c.memory
    else if str_eq part "io"
    then some (unwrap_or c.io_weight "none")
    else if str_eq part "cpu"
    then some c.cpu
    else if str_eq part "disk"
    then some c.disk
    else if str_eq part "default"
    then lookup_default c parts
    else some ""

-- The section of a variable `server.section.part`, and the parts behind it.
abbrev pub lookup_section : ServerValues → String → String → List String → Option String
lookup_section c section part parts =
    if str_eq section "build"
    then lookup_build c part parts
    else if str_eq section "env"
    then some (unwrap_or (c.environment part) "")
    else some ""

-- lookup_value on the parts of a variable between its dots.
unfoldable pub lookup_variable : ServerValues → List String → Option String
lookup_variable c (first ∷ section ∷ part ∷ parts) =
    if str_eq first "server" then lookup_section c section part parts else some ""
lookup_variable c _ = some ""

-- `variable` is the parts of what stands between `{{` and `}}`, where the text is that.
unfoldable pub lookup_value : ServerValues → Option String → Option (List String) → Option String
unfolding lookup_variable
lookup_value c none variable = none
lookup_value c (some value) none = some value
lookup_value c (some value) (some parts) = lookup_variable c parts
