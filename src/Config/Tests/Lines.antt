-- ===== src/Config/Tests/Lines.antt =====
-- Edits of a server.properties, an ini and a plain file with a few lines.
use cyrogopus.Prelude.{true, none, some, List, [], ◌∷◌, ◌++◌, ◌≡◌, refl, map, take, length}
use cyrogopus.Config.Text.{
  Text, has_text, trim_end, is_whitespace, ends_with_char, same_text, lines, join_lines,
}
use cyrogopus.Config.Properties.{Replacement, format, process_properties_file}
use cyrogopus.Config.Properties.Edit.{get, chosen, added, get-process_properties_file}
use cyrogopus.Config.Ini.{process_ini_file}
use cyrogopus.Config.Ini.File.{edited}
use cyrogopus.Config.Ini.Lines.{take-process_ini_file}
use cyrogopus.Config.Plain
use cyrogopus.Config.Plain.{process_plain_file}
use cyrogopus.Config.Plain.Edit.{has_text-process_plain_file}

-- "a", "b" and "m.a".
abbrev key_a : Text
key_a = 97 ∷ []

abbrev key_b : Text
key_b = 98 ∷ []

abbrev full_a : Text
full_a = 109 ∷ 46 ∷ 97 ∷ []

-- "1", and "2".
abbrev one : Text
one = 49 ∷ []

abbrev two : Text
two = 50 ∷ []

abbrev to_two : Text → Replacement
to_two k = record { match_key = k; if_value = none; value = some two }

-- "# a=1", "a=1" and "m".
abbrev file : List Text
file = (35 ∷ 32 ∷ format key_a one) ∷ format key_a one ∷ (109 ∷ []) ∷ []

-- "[m]", and "a=1" below it.
abbrev ini_file : List Text
ini_file = (91 ∷ 109 ∷ 93 ∷ []) ∷ format key_a one ∷ []

get-process_properties_file_example :
    get key_a (lines (process_properties_file (to_two key_a ∷ to_two key_b ∷ []) (join_lines file)))
    ≡ elim (get key_a (lines (join_lines file))) [
      | none ↦ added key_a (to_two key_a ∷ to_two key_b ∷ [])
      | some w ↦ some (chosen (to_two key_a ∷ to_two key_b ∷ []) key_a w)
    ]
unfolding trim_end is_whitespace lines join_lines ends_with_char
get-process_properties_file_example =
    get-process_properties_file (to_two key_a ∷ to_two key_b ∷ []) (join_lines file) key_a
      ((refl, refl, refl), ((refl, refl, refl), tt)) ((refl, refl), ((refl, refl), tt))
      (refl, (refl, (refl, tt)))

take-process_ini_file_example :
    take
      (length (lines (join_lines ini_file)))
      (lines (process_ini_file (to_two full_a ∷ []) (join_lines ini_file)))
    ≡ edited (to_two full_a ∷ []) [] (lines (join_lines ini_file))
unfolding lines join_lines ends_with_char
take-process_ini_file_example =
    take-process_ini_file (to_two full_a ∷ []) (join_lines ini_file) ((refl, refl), tt)
      (refl, (refl, tt))

has_text-process_plain_file_example :
    (take
        (length (lines (join_lines file)))
        (lines (process_plain_file ((to_two key_b ∷ []) ++ to_two key_a ∷ []) (join_lines file)))
      ≡ map
          (Plain.Edit.chosen ((to_two key_b ∷ []) ++ to_two key_a ∷ []))
          (lines (join_lines file)))
    × (has_text two
          (lines (process_plain_file ((to_two key_b ∷ []) ++ to_two key_a ∷ []) (join_lines file)))
        ≡ true)
unfolding same_text lines join_lines ends_with_char
has_text-process_plain_file_example =
    has_text-process_plain_file (to_two key_b ∷ []) [] (to_two key_a) two (join_lines file)
      (refl, refl) refl ((refl, refl), ((refl, refl), tt)) (refl, (refl, (refl, tt)))
