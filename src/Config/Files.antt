-- ===== src/Config/Files.antt =====
-- application/src/server/configuration/process.rs: the update of the configuration files. A file
-- comes with what the filesystem answers for it; the update gives back the calls that it makes.
use cyrogopus.Prelude.{
  String, Bool, not, List, [], ◌∷◌, ◌++◌, Option, none, some, if◌then◌else◌, unwrap_or,
}
use cyrogopus.Cap.{PathBuf, strip_prefix, root_dir, is_empty}
use cyrogopus.Sftp.{Metadata, is_dir}
use cyrogopus.Schedule.Action.{parent}
use cyrogopus.Config.{Value, object, empty, Parsing, apply_replacements}
use cyrogopus.Config.Text.{Text, trim}
use cyrogopus.Config.Text
use cyrogopus.Config.Properties.{Replacement, process_properties_file}
use cyrogopus.Config.Ini.{process_ini_file}
use cyrogopus.Config.Plain.{process_plain_file}
use cyrogopus.Config.Xml.{process_xml_file}

pub data Parser : Type 0 where
  plain_file yaml properties ini json xml : Parser

pub record ConfigurationFile : Type 0 where
  pub file : PathBuf
  pub parser : Parser
  pub replacements : List Replacement

-- serde_json: the document of a text and the text of a document; with the parts of a match between
-- its dots and a value, as the keys and the texts of a document are.
pub record Json : Type 0 where
  pub from_str : Text → Option Value
  pub to_string_pretty : Value → Option Text
  pub path : Text → List String
  pub string : Text → String
  pub parsing : Parsing

abbrev pub document : Json → Text → Value
document js content =
    if Text.is_empty (trim content)
    then object empty
    else unwrap_or (js.from_str content) (object empty)

abbrev pub json_value : Json → Option Text → Option String
json_value js none = none
json_value js (some v) = some (js.string v)

unfoldable pub json_replacements : Json → List Replacement → List (List String × Option String)
json_replacements js [] = []
json_replacements js (r ∷ rs) =
    (js.path r.match_key, json_value js r.value) ∷ json_replacements js rs

-- The edited document, or the text that stands in where it cannot be printed.
abbrev pub edited : Json → List Replacement → Text → Text → Text
edited js rs otherwise content =
    unwrap_or
      (js.to_string_pretty
        (apply_replacements js.parsing (document js content) (json_replacements js rs)))
      otherwise

unfoldable pub process_json_file : Json → List Replacement → Text → Text
process_json_file js rs content = edited js rs (123 ∷ 125 ∷ []) content

unfoldable pub process_yaml_file : Json → List Replacement → Text → Text
process_yaml_file js rs content = edited js rs (123 ∷ 125 ∷ 10 ∷ []) content

-- The match on the parser. `no_xml` is the XML document that stands in for a file without content.
unfoldable pub process : Json → Text → Parser → List Replacement → Text → Text
process js no_xml plain_file rs content = process_plain_file rs content
process js no_xml yaml rs content = process_yaml_file js rs content
process js no_xml properties rs content = process_properties_file rs content
process js no_xml ini rs content = process_ini_file rs content
process js no_xml json rs content = process_json_file js rs content
process js no_xml xml rs content = process_xml_file no_xml rs content

pub data Effect : Type 0 where
  create_dir_all chown_path : PathBuf → Effect
  write : PathBuf → Text → Effect

-- What the filesystem answers: whether the directory of the file is there, the metadata of the file
-- and its content.
pub record View : Type 0 where
  pub has_parent : Bool
  pub symlink_metadata : Option Metadata
  pub content : Option Text
  pub succeeds : Effect → Bool

abbrev pub full_path : PathBuf → PathBuf
full_path p = unwrap_or (strip_prefix (root_dir ∷ []) p) p

-- Whether there is a directory to create, and which.
abbrev pub missing_parent : View → PathBuf → Option PathBuf
missing_parent v p = elim (parent p) [
  | none ↦ none
  | some d ↦ if is_empty d then none else if v.has_parent then none else some d
]

-- The content that the file is taken to have.
abbrev pub file_content : View → Text
file_content v = elim (v.symlink_metadata) [
  | none ↦ []
  | some m ↦ if not (is_dir m) then unwrap_or v.content [] else []
]

abbrev pub write_file : Json → Text → View → ConfigurationFile → List Effect
write_file js no_xml v f =
    let content = process js no_xml f.parser f.replacements (file_content v) in
    let call = write (full_path f.file) content in
    if v.succeeds call then call ∷ chown_path f.file ∷ [] else call ∷ []

unfoldable pub update_file : Json → Text → View → ConfigurationFile → List Effect
update_file js no_xml v f = elim (missing_parent v (full_path f.file)) [
  | none ↦ write_file js no_xml v f
  | some d ↦
      if v.succeeds (create_dir_all d)
      then create_dir_all d ∷ chown_path d ∷ write_file js no_xml v f
      else create_dir_all d ∷ []
]

unfoldable pub update_files : Json → Text → List (View × ConfigurationFile) → List Effect
update_files js no_xml [] = []
update_files js no_xml ((v, f) ∷ fs) = update_file js no_xml v f ++ update_files js no_xml fs
