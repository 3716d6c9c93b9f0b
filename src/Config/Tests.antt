-- ===== src/Config/Tests.antt =====
-- Edits of a document with a port and a list of worlds.
mod Lines
use cyrogopus.Prelude.{true, false, none, some, [], ◌∷◌, ◌≡◌, refl, str_eq, if◌then◌else◌}
use cyrogopus.Prelude.Int.{pos}
use cyrogopus.Config.{
  Value, object, number, integer, text, empty, field, Parsing, leaf_value, update_json_value,
}
use cyrogopus.Config.Edit.{get_path, is_held, Stored, get_path-update_json_value}

-- A parser that knows the number 8 only.
abbrev parsing : Parsing
parsing = record {
  eq_ignore_ascii_case = str_eq;
  parse_i64 = λ s. if str_eq s "8" then some (pos 8) else none;
  parse_f64 = λ s. none;
  has_fraction = λ f. false;
  is_finite = λ f. true;
}

abbrev document : Value
document = object (
    field "server" (object (field "port" (number (integer (pos 7))) empty))
      (field "motd" (text "hello") empty))

get_path-update_json_value_example :
    (v : Value) × (get_path
        (update_json_value parsing document ("server" ∷ "port" ∷ []) "8")
        ("server" ∷ "port" ∷ [])
      ≡ some v)
    × Stored (is_held document ("server" ∷ "port" ∷ [])) parsing "8" v
get_path-update_json_value_example =
    get_path-update_json_value ("port" ∷ []) parsing document "server" "8"
