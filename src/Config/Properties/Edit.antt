-- ===== src/Config/Properties/Edit.antt =====
-- application/src/server/configuration/process.rs: the values that a properties file has after its
-- replacements. Of the lines with one key, a reader takes the last.
use cyrogopus.Prelude.{
  Bool, not, ◌&&◌, List, [], ◌∷◌, ◌++◌, Option, none, some, ◌≡◌, refl, ap, ◌∙◌, arith, inl, inr,
  All, Option-cases, Bool-cases, if◌then◌else◌, map, is_some, unwrap_or,
}
use cyrogopus.Config.Text.{Text, same_text, has_text, lines, trim_start, trim_end}
use cyrogopus.Config.Text.Trim.{same_text-true}
use cyrogopus.Config.Text.Lines.{IsUnreturned, shown, lines-join_lines, IsLine-lines, All-append}
use cyrogopus.Config.Properties.{
  Replacement, entry, is_other, replace, update_line, keys, missing, edit_properties,
  process_properties_file,
}
use cyrogopus.Config.Properties.Entry.{IsKey, entry-format, entry-IsKey}
use cyrogopus.Config.Properties.Lines.{IsWritable, IsLine-updated, IsLine-missing}

abbrev read : Text → Option (Text × Text) → Option Text
read k none = none
read k (some (j, w)) = if same_text j k then some w else none

abbrev pub get : Text → List Text → Option Text
get k [] = none
get k (line ∷ lines) = elim (get k lines) [ none ↦ read k (entry line) | some w ↦ some w ]

abbrev applies : Replacement → Text → Text → Bool
applies r k w = same_text r.match_key k && (not (is_other r.if_value w) && is_some r.value)

-- The value of the first replacement that applies to a key and its value.
abbrev pub chosen : List Replacement → Text → Text → Text
chosen [] k w = w
chosen (r ∷ rs) k w = if applies r k w then unwrap_or r.value w else chosen rs k w

-- The value of the last replacement of a key that has one.
abbrev pub added : Text → List Replacement → Option Text
added k [] = none
added k (r ∷ rs) = elim (added k rs) [
  | none ↦ if same_text r.match_key k then r.value else none
  | some v ↦ some v
]

abbrev pub HasKey : Replacement → Type 0
HasKey r = IsKey r.match_key

entry-replace :
    (rs : List Replacement) (k w line : Text)
    → IsKey k
    → entry line ≡ some (k, w)
    → entry (replace rs k w line) ≡ some (k, chosen rs k w)
unfolding replace
entry-replace [] k w line h e = e
entry-replace (r ∷ rs) k w line h e = elim (Option-cases r.value) [
  | inl o ↦ ground (arith, o, entry-replace rs k w line h e)
  | inr (v, o) ↦ ground (arith, o, entry-replace rs k w line h e, entry-format k v h)
]

-- What an updated line reads as.
abbrev updated : List Replacement → Option (Text × Text) → Option (Text × Text)
updated rs none = none
updated rs (some (k, w)) = some (k, chosen rs k w)

entry-update_line :
    (rs : List Replacement) (line : Text) → entry (update_line rs line) ≡ updated rs (entry line)
unfolding update_line
entry-update_line rs line = elim (Option-cases (entry line)) [
  | inl e ↦ ground (arith, e)
  | inr ((k, w), e) ↦ ground (arith, e, entry-replace rs k w line (entry-IsKey line k w e) e)
]

abbrev map_chosen : List Replacement → Text → Option Text → Option Text
map_chosen rs k none = none
map_chosen rs k (some w) = some (chosen rs k w)

read-updated :
    (rs : List Replacement) (k : Text) (o : Option (Text × Text))
    → read k (updated rs o) ≡ map_chosen rs k (read k o)
read-updated rs k none = refl
read-updated rs k (some (j, w)) = elim (Bool-cases (same_text j k)) [
  | inl e ↦ let same : j ≡ k = same_text-true j k e in rw (e, same) refl
  | inr e ↦ ground (arith, e)
]

get-map :
    (rs : List Replacement) (k : Text) (lines : List Text)
    → get k (map (update_line rs) lines) ≡ map_chosen rs k (get k lines)
get-map rs k [] = refl
get-map rs k (line ∷ lines) = elim (Option-cases (get k lines)) [
  | inl e ↦
      ground
        (arith, e, get-map rs k lines, entry-update_line rs line, read-updated rs k (entry line))
  | inr (w, e) ↦ ground (arith, e, get-map rs k lines)
]

abbrev or_else : Option Text → Option Text → Option Text
or_else none o = o
or_else (some w) o = some w

get-append : (k : Text) (xs ys : List Text) → get k (xs ++ ys) ≡ or_else (get k ys) (get k xs)
get-append k [] ys = elim (Option-cases (get k ys)) [
  | inl e ↦ ground (arith, e)
  | inr (w, e) ↦ ground (arith, e)
]
get-append k (x ∷ xs) ys = elim (Option-cases (get k ys)) [
  | inl e ↦ ground (arith, e, get-append k xs ys)
  | inr (w, e) ↦ ground (arith, e, get-append k xs ys)
]

has_text-keys : (k : Text) (lines : List Text) → has_text k (keys lines) ≡ is_some (get k lines)
unfolding has_text keys
has_text-keys k [] = refl
has_text-keys k (line ∷ lines) = elim (Option-cases (entry line)) [
  | inl e ↦ ground (arith, e, has_text-keys k lines)
  | inr ((j, w), e) ↦ ground (arith, e, has_text-keys k lines)
]

get-missing :
    (rs : List Replacement) (k : Text) (processed : List Text)
    → All HasKey rs
    → get k (missing processed rs) ≡ (if has_text k processed then none else added k rs)
unfolding missing
get-missing [] k processed h = ground arith
get-missing (r ∷ rs) k processed (h, hs) = elim (Option-cases r.value) [
  | inl o ↦ ground (arith, o, get-missing rs k processed hs, same_text-true r.match_key k)
  | inr (v, o) ↦ ground (
    arith,
    o,
    get-missing rs k processed hs,
    same_text-true r.match_key k,
    entry-format r.match_key v h,
  )
]

get-edit_properties :
    (rs : List Replacement) (lines : List Text) (k : Text)
    → All HasKey rs
    → get k (edit_properties rs lines)
      ≡ elim (get k lines) [ none ↦ added k rs | some w ↦ some (chosen rs k w) ]
unfolding edit_properties
get-edit_properties rs lines k h = elim (Option-cases (get k lines)) [
  | inl e ↦ ground (
    arith,
    e,
    get-append k (map (update_line rs) lines) (missing (keys lines) rs),
    get-map rs k lines,
    get-missing rs k (keys lines) h,
    has_text-keys k lines,
  )
  | inr (w, e) ↦ ground (
    arith,
    e,
    get-append k (map (update_line rs) lines) (missing (keys lines) rs),
    get-map rs k lines,
    get-missing rs k (keys lines) h,
    has_text-keys k lines,
  )
]

get-shown : (k : Text) (ls : List Text) → get k (shown ls) ≡ get k ls
unfolding entry trim_start trim_end
get-shown k [] = refl
get-shown k (l ∷ ls) = refl

-- In the lines of the processed file, a key that the file has is read with the value of the first
-- replacement that applies to the value read before, and with its old value where none does; another
-- key is read with the value of its last replacement that has one, and is not read where there is
-- none. Each replacement must name a key that can be written, without a newline, and its value and
-- the lines of the file must not end with a carriage return, nor the value have a newline.
pub get-process_properties_file :
    (rs : List Replacement) (content : Text) (k : Text)
    → All HasKey rs
    → All IsWritable rs
    → All IsUnreturned (lines content)
    → get k (lines (process_properties_file rs content))
      ≡ elim (get k (lines content)) [ none ↦ added k rs | some w ↦ some (chosen rs k w) ]
unfolding process_properties_file edit_properties
get-process_properties_file rs content k h w u =
    let ls = lines content in
    let clean =
      All-append (map (update_line rs) ls) (missing (keys ls) rs)
        (IsLine-updated rs ls w (IsLine-lines content u)) (IsLine-missing (keys ls) rs w) in
    ap (get k) (lines-join_lines (edit_properties rs ls) clean)
    ∙ get-shown k (edit_properties rs ls)
    ∙ get-edit_properties rs ls k h
