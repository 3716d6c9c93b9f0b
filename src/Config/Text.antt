-- ===== src/Config/Text.antt =====
-- The operations of std on texts that application/src/server/configuration/process.rs uses. A text is
-- the list of its code points.
pub mod Trim
pub mod Lines
use cyrogopus.Prelude.{
  ℕ, Bool, true, false, not, ◌&&◌, ◌||◌, List, [], ◌∷◌, ◌++◌, Option, none, some, ◌==◌, leb, any,
  if◌then◌else◌,
}

abbrev pub Text : Type 0
Text = List ℕ

-- char::is_whitespace.
unfoldable pub is_whitespace : ℕ → Bool
is_whitespace c =
    (leb 9 c && leb c 13)
    || c == 32
    || c == 133
    || c == 160
    || c == 5760
    || (leb 8192 c && leb c 8202)
    || c == 8232
    || c == 8233
    || c == 8239
    || c == 8287
    || c == 12288

abbrev pub is_empty : Text → Bool
is_empty [] = true
is_empty (c ∷ cs) = false

unfoldable pub trim_start : Text → Text
trim_start [] = []
trim_start (c ∷ cs) = if is_whitespace c then trim_start cs else c ∷ cs

unfoldable pub trim_end : Text → Text
trim_end [] = []
trim_end (c ∷ cs) =
    let rest = trim_end cs in if is_empty rest && is_whitespace c then [] else c ∷ rest

abbrev pub trim : Text → Text
trim s = trim_end (trim_start s)

-- starts_with and ends_with of a character, and starts_with and contains of a text.
abbrev pub starts_with_char : ℕ → Text → Bool
starts_with_char c [] = false
starts_with_char c (d ∷ cs) = d == c

unfoldable pub ends_with_char : ℕ → Text → Bool
ends_with_char c [] = false
ends_with_char c (d ∷ []) = d == c
ends_with_char c (d ∷ e ∷ cs) = ends_with_char c (e ∷ cs)

unfoldable pub starts_with : Text → Text → Bool
starts_with [] s = true
starts_with (c ∷ p) [] = false
starts_with (c ∷ p) (d ∷ s) = c == d && starts_with p s

unfoldable pub contains : Text → Text → Bool
contains p [] = is_empty p
contains p (d ∷ s) = starts_with p (d ∷ s) || contains p s

unfoldable pub same_text : Text → Text → Bool
same_text [] [] = true
same_text (c ∷ s) (d ∷ t) = c == d && same_text s t
same_text _ _ = false

abbrev cons_first : ℕ → Option (Text × Text) → Option (Text × Text)
cons_first c none = none
cons_first c (some (s, t)) = some (c ∷ s, t)

-- `splitn(2, c)`: the two parts, where there are two.
unfoldable pub split_once : ℕ → Text → Option (Text × Text)
split_once c [] = none
split_once c (d ∷ s) = if d == c then some ([], s) else cons_first d (split_once c s)

-- Whether a text is in a list.
unfoldable pub has_text : Text → List Text → Bool
has_text s [] = false
has_text s (t ∷ ts) = same_text t s || has_text s ts

abbrev cons_line : ℕ → List Text → List Text
cons_line c [] = (c ∷ []) ∷ []
cons_line c (line ∷ lines) = (c ∷ line) ∷ lines

-- str::lines, where a newline takes a carriage return before it along.
unfoldable pub lines : Text → List Text
lines [] = []
lines (c ∷ cs) =
    let rest = lines cs in
    if c == 10
    then [] ∷ rest
    else if c == 13 && starts_with_char 10 cs
    then rest
    else cons_line c rest

-- `join("\n") + "\n"`.
unfoldable pub join_lines : List Text → Text
join_lines [] = 10 ∷ []
join_lines (line ∷ []) = line ++ 10 ∷ []
join_lines (line ∷ l ∷ ls) = line ++ 10 ∷ join_lines (l ∷ ls)

abbrev before_more : ℕ → Option (Text × Text) → Option (Text × Text)
before_more c none = none
before_more c (some (s, t)) = some (c ∷ s, t)

abbrev suffix : Text → Text → Text
suffix [] s = s
suffix (c ∷ p) [] = []
suffix (c ∷ p) (d ∷ s) = suffix p s

-- What stands before and behind the first, and the last, place of a text: `find` and `rfind`.
unfoldable pub split_first : Text → Text → Option (Text × Text)
split_first p [] = if is_empty p then some ([], []) else none
split_first p (d ∷ s) =
    if starts_with p (d ∷ s) then some ([], suffix p (d ∷ s)) else before_more d (split_first p s)

unfoldable pub split_last : Text → Text → Option (Text × Text)
split_last p [] = if is_empty p then some ([], []) else none
split_last p (d ∷ s) = elim (before_more d (split_last p s)) [
  | some x ↦ some x
  | none ↦ if starts_with p (d ∷ s) then some ([], suffix p (d ∷ s)) else none
]
