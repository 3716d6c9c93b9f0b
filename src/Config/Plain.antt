-- ===== src/Config/Plain.antt =====
-- application/src/server/configuration/process.rs: the plain file, in which a line that begins with
-- the match of a replacement is replaced as a whole.
pub mod Edit
use cyrogopus.Prelude.{
  Bool, true, false, not, ◌||◌, List, [], ◌∷◌, ◌++◌, Option, none, some, ◌≡◌, refl, arith, inl, inr,
  Bool-cases, Option-cases, if◌then◌else◌, map,
}
use cyrogopus.Config.Text.{
  Text, trim, starts_with, contains, same_text, has_text, lines, join_lines,
}
use cyrogopus.Config.Text.Trim.{same_text_refl, same_text-true}
use cyrogopus.Config.Properties.{Replacement}

-- Whether a line lacks the text that a replacement asks for.
abbrev pub lacks : Option Text → Text → Bool
lacks none line = false
lacks (some wanted) line = not (contains wanted line)

-- A line after its loop over the replacements, and the matches that the loop has seen.
unfoldable pub replace_line : List Replacement → Text → Text × List Text
replace_line [] line = (line, [])
replace_line (r ∷ rs) line =
    let rest = replace_line rs line in
    if starts_with r.match_key (trim line)
    then (if lacks r.if_value line then (rest.0, r.match_key ∷ rest.1) else elim (r.value) [
      | none ↦ (rest.0, r.match_key ∷ rest.1)
      | some v ↦ (v, r.match_key ∷ [])
    ])
    else rest

-- `processed_matches`.
unfoldable pub matches : List Replacement → List Text → List Text
matches rs [] = []
matches rs (line ∷ lines) = (replace_line rs line).1 ++ matches rs lines

unfoldable pub missing : List Text → List Replacement → List Text
missing processed [] = []
missing processed (r ∷ rs) =
    let rest = missing processed rs in
    if has_text r.match_key processed
    then rest
    else elim (r.value) [ none ↦ rest | some v ↦ v ∷ rest ]

unfoldable pub edit_plain : List Replacement → List Text → List Text
edit_plain rs lines = map (λ l. (replace_line rs l).0) lines ++ missing (matches rs lines) rs

unfoldable pub process_plain_file : List Replacement → Text → Text
process_plain_file rs content = join_lines (edit_plain rs (lines content))

-- Whether a text is the match of a replacement.
abbrev pub has_match : Text → List Replacement → Bool
has_match k [] = false
has_match k (r ∷ rs) = same_text r.match_key k || has_match k rs

has_text-append :
    (s : Text) (xs ys : List Text) → has_text s (xs ++ ys) ≡ (has_text s xs || has_text s ys)
unfolding has_text
has_text-append s [] ys = ground arith
has_text-append s (x ∷ xs) ys = ground (arith, has_text-append s xs ys)

-- A match that the line does not begin with is not seen.
replace_line-unseen :
    (rs : List Replacement) (k line : Text)
    → starts_with k (trim line) ≡ false
    → has_text k (replace_line rs line).1 ≡ false
unfolding replace_line has_text
replace_line-unseen [] k line h = refl
replace_line-unseen (r ∷ rs) k line h = elim (Option-cases r.value) [
  | inl o ↦ ground (arith, h, o, same_text-true r.match_key k, replace_line-unseen rs k line h)
  | inr (v, o) ↦ ground (arith, h, o, same_text-true r.match_key k, replace_line-unseen rs k line h)
]

-- A replacement with a value for every line that begins with its match.
abbrev pub IsPlain : Replacement → Text → Type 0
IsPlain r v = (r.value ≡ some v) × (r.if_value ≡ none)

-- A line on which the match of such a replacement is seen becomes its value.
replace_line-seen :
    (before after : List Replacement) (r : Replacement) (v line : Text)
    → IsPlain r v
    → has_match r.match_key before ≡ false
    → has_text r.match_key (replace_line (before ++ r ∷ after) line).1 ≡ true
    → (replace_line (before ++ r ∷ after) line).0 ≡ v
unfolding replace_line has_text
replace_line-seen [] after r v line (value, always) first seen =
    ground (arith, value, always, seen, replace_line-unseen after r.match_key line)
replace_line-seen (x ∷ before) after r v line plain first seen = elim (Option-cases x.value) [
  | inl o ↦ ground (arith, first, seen, o, replace_line-seen before after r v line plain)
  | inr (w, o) ↦ ground (arith, first, seen, o, replace_line-seen before after r v line plain)
]

module _ (before after : List Replacement) (r : Replacement) (v : Text) where
  abbrev all_of : List Replacement
  all_of = before ++ r ∷ after

  -- A match that is seen has its value in the file.
  matches-seen :
      (lines : List Text)
      → IsPlain r v
      → has_match r.match_key before ≡ false
      → has_text r.match_key (matches all_of lines) ≡ true
      → has_text v (map (λ l. (replace_line all_of l).0) lines) ≡ true
  unfolding matches has_text
  matches-seen [] plain first seen = ground (arith, seen)
  matches-seen (line ∷ lines) plain first seen = ground (
    arith,
    seen,
    has_text-append r.match_key (replace_line all_of line).1 (matches all_of lines),
    replace_line-seen before after r v line plain first,
    matches-seen lines plain first,
    same_text_refl v,
  )

-- A match that no line has begun with has its value at the end.
missing-unseen :
    (before after : List Replacement) (r : Replacement) (v : Text) (processed : List Text)
    → r.value ≡ some v
    → has_text r.match_key processed ≡ false
    → has_text v (missing processed (before ++ r ∷ after)) ≡ true
unfolding missing has_text
missing-unseen [] after r v processed value h = ground (arith, value, h, same_text_refl v)
missing-unseen (x ∷ before) after r v processed value h = elim (Option-cases x.value) [
  | inl o ↦ ground (arith, o, missing-unseen before after r v processed value h)
  | inr (w, o) ↦ ground (arith, o, missing-unseen before after r v processed value h)
]

pub has_text-edit_plain :
    (before after : List Replacement) (r : Replacement) (v : Text) (lines : List Text)
    → IsPlain r v
    → has_match r.match_key before ≡ false
    → has_text v (edit_plain (before ++ r ∷ after) lines) ≡ true
unfolding edit_plain
has_text-edit_plain before after r v lines plain first =
    let rs = before ++ r ∷ after in
    let joined =
      has_text-append v (map (λ l. (replace_line rs l).0) lines) (missing (matches rs lines) rs) in
    elim (Bool-cases (has_text r.match_key (matches rs lines))) [
      | inl e ↦ ground (arith, joined, matches-seen before after r v lines plain first e)
      | inr e ↦ ground (arith, joined, missing-unseen before after r v (matches rs lines) plain.0 e)
    ]
