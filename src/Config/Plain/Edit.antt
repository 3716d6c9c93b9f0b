-- ===== src/Config/Plain/Edit.antt =====
-- application/src/server/configuration/process.rs: the lines of a plain file after its replacements.
use cyrogopus.Prelude.{
  Bool, true, false, ◌&&◌, List, [], ◌∷◌, ◌++◌, Option, none, some, ◌≡◌, refl, ap, ◌∙◌, sym, arith,
  inl, inr, All, Option-cases, Bool-cases, if◌then◌else◌, map, is_some, unwrap_or, length, take,
}
use cyrogopus.Config.Text.{Text, trim, starts_with, contains, has_text, lines, join_lines}
use cyrogopus.Config.Text.Lines.{
  IsLine, IsUnreturned, shown, lines-join_lines, IsLine-lines, All-append,
}
use cyrogopus.Config.Properties.{Replacement}
use cyrogopus.Config.Properties.Lines.{IsWritable, IsValue-some}
use cyrogopus.Config.Plain.{
  replace_line, matches, missing, edit_plain, process_plain_file, has_match, has_text-edit_plain,
}

abbrev has_wanted : Option Text → Text → Bool
has_wanted none line = true
has_wanted (some wanted) line = contains wanted line

-- Whether a replacement has a value for a line: the line begins with its match, whitespace before it
-- aside, and has the text that it asks for.
abbrev takes : Replacement → Text → Bool
takes r line =
    starts_with r.match_key (trim line) && (has_wanted r.if_value line && is_some r.value)

-- The value of the first replacement that has one for a line, and the line itself where none has.
abbrev pub chosen : List Replacement → Text → Text
chosen [] line = line
chosen (r ∷ rs) line = if takes r line then unwrap_or r.value line else chosen rs line

replace_line-chosen :
    (rs : List Replacement) (line : Text) → (replace_line rs line).0 ≡ chosen rs line
unfolding replace_line
replace_line-chosen [] line = refl
replace_line-chosen (r ∷ rs) line = elim (Option-cases r.if_value) [
  | inl w ↦ elim (Option-cases r.value) [
    | inl o ↦ ground (arith, w, o, replace_line-chosen rs line)
    | inr (v, o) ↦ ground (arith, w, o, replace_line-chosen rs line)
  ]
  | inr (wanted, w) ↦ elim (Option-cases r.value) [
    | inl o ↦ ground (arith, w, o, replace_line-chosen rs line)
    | inr (v, o) ↦ ground (arith, w, o, replace_line-chosen rs line)
  ]
]

map-chosen :
    (rs : List Replacement) (ls : List Text)
    → map (λ l. (replace_line rs l).0) ls ≡ map (chosen rs) ls
map-chosen rs [] = refl
map-chosen rs (l ∷ ls) = rw (replace_line-chosen rs l, map-chosen rs ls) refl

IsLine-chosen :
    (rs : List Replacement) (line : Text)
    → All IsWritable rs
    → IsLine line
    → IsLine (chosen rs line)
IsLine-chosen [] line h g = g
IsLine-chosen (r ∷ rs) line (h, hs) g = elim (Option-cases r.value) [
  | inl o ↦ ground (arith, o, IsLine-chosen rs line hs g)
  | inr (v, o) ↦ ground (arith, o, IsLine-chosen rs line hs g, IsValue-some r.value v h.1 o)
]

IsLine-map :
    (rs : List Replacement) (ls : List Text)
    → All IsWritable rs
    → All IsLine ls
    → All IsLine (map (chosen rs) ls)
IsLine-map rs [] h g = tt
IsLine-map rs (line ∷ ls) h (g, gs) = (IsLine-chosen rs line h g, IsLine-map rs ls h gs)

IsLine-missing :
    (processed : List Text) (rs : List Replacement)
    → All IsWritable rs
    → All IsLine (missing processed rs)
unfolding missing
IsLine-missing processed [] h = tt
IsLine-missing processed (r ∷ rs) (h, hs) = elim (Bool-cases (has_text r.match_key processed)) [
  | inl e ↦ rw e (IsLine-missing processed rs hs)
  | inr e ↦ elim (Option-cases r.value) [
    | inl o ↦ rw (e, o) (IsLine-missing processed rs hs)
    | inr (v, o) ↦ rw (e, o) (IsValue-some r.value v h.1 o, IsLine-missing processed rs hs)
  ]
]

take-all :
    (rs : List Replacement) (ls more : List Text)
    → take (length ls) (map (chosen rs) ls ++ more) ≡ map (chosen rs) ls
take-all rs [] more = refl
take-all rs (l ∷ ls) more = ap (λ r. chosen rs l ∷ r) (take-all rs ls more)

take-map :
    (rs : List Replacement) (ls more : List Text)
    → take (length ls) (shown (map (chosen rs) ls ++ more)) ≡ map (chosen rs) ls
take-map rs [] more = refl
take-map rs (l ∷ ls) more = ap (λ r. chosen rs l ∷ r) (take-all rs ls more)

has_text-shown : (v : Text) (ls : List Text) → has_text v ls ≡ true → has_text v (shown ls) ≡ true
unfolding has_text
has_text-shown v [] h = ground (arith, h)
has_text-shown v (l ∷ ls) h = h

-- The lines of a processed plain file are, in their places, those of the file, each as the first
-- replacement that has a value for it makes it; and the value of a replacement that asks for no text
-- is a line, when no replacement before it has the same match. Values have no newline, and neither
-- they nor the lines of the file end with a carriage return; matches have no newline.
pub has_text-process_plain_file :
    (before after : List Replacement) (r : Replacement) (v : Text) (content : Text)
    → (r.value ≡ some v) × (r.if_value ≡ none)
    → has_match r.match_key before ≡ false
    → All IsWritable (before ++ r ∷ after)
    → All IsUnreturned (lines content)
    → (take (length (lines content)) (lines (process_plain_file (before ++ r ∷ after) content))
        ≡ map (chosen (before ++ r ∷ after)) (lines content))
      × (has_text v (lines (process_plain_file (before ++ r ∷ after) content)) ≡ true)
unfolding process_plain_file edit_plain
has_text-process_plain_file before after r v content plain first w u =
    let rs = before ++ r ∷ after in
    let ls = lines content in
    let more = missing (matches rs ls) rs in
    let same = map-chosen rs ls in
    let clean =
      All-append (map (chosen rs) ls) more (IsLine-map rs ls w (IsLine-lines content u))
        (IsLine-missing (matches rs ls) rs w) in
    let read : lines (process_plain_file rs content) ≡ shown (map (chosen rs) ls ++ more) =
      ap (λ m. lines (join_lines (m ++ more))) same ∙ lines-join_lines _ clean in
    (
      ap (take (length ls)) read ∙ take-map rs ls more,
      ap (has_text v) read
          ∙ has_text-shown v (map (chosen rs) ls ++ more) (
              ap (λ m. has_text v (m ++ more)) (sym same)
              ∙ has_text-edit_plain before after r v ls plain first),
    )
