-- ===== src/Config/Text/Lines.antt =====
-- The lines of a text, as str::lines takes them apart and process.rs puts them together.
use cyrogopus.Prelude.{
  ℕ, Bool, true, false, not, ◌&&◌, List, [], ◌∷◌, ◌++◌, ◌≡◌, refl, ap, ◌∙◌, arith, All, any,
}
use cyrogopus.Config.Text.{Text, ends_with_char, lines, join_lines}
use cyrogopus.Config.Text.Trim.{has_char}

-- A text that is read back as one line: it has no newline, and does not end with a carriage return.
abbrev pub is_line : Text → Bool
is_line l = not (has_char 10 l) && not (ends_with_char 13 l)

abbrev pub IsLine : Text → Type 0
IsLine l = is_line l ≡ true

-- A line that does not end with a carriage return.
abbrev pub IsUnreturned : Text → Type 0
IsUnreturned l = ends_with_char 13 l ≡ false

-- The lines of a file that is written from some lines: a file of none has an empty one.
abbrev pub shown : List Text → List Text
shown [] = [] ∷ []
shown (l ∷ ls) = l ∷ ls

lines-cons : (l rest : Text) → IsLine l → lines (l ++ 10 ∷ rest) ≡ l ∷ lines rest
unfolding lines ends_with_char
lines-cons [] rest h = refl
lines-cons (c ∷ []) rest h = ground (arith, h)
lines-cons (c ∷ d ∷ l) rest h = ground (arith, h, lines-cons (d ∷ l) rest (ground (arith, h)))

pub lines-join_lines : (ls : List Text) → All IsLine ls → lines (join_lines ls) ≡ shown ls
unfolding join_lines lines
lines-join_lines [] h = refl
lines-join_lines (l ∷ []) h = lines-cons l [] h.0
lines-join_lines (l ∷ k ∷ ls) h =
    lines-cons l (join_lines (k ∷ ls)) h.0 ∙ ap (λ r. l ∷ r) (lines-join_lines (k ∷ ls) h.1)

-- No line has a newline.
has_newline : List Text → Bool
has_newline ls = any (has_char 10) ls

has_newline-lines : (s : Text) → has_newline (lines s) ≡ false
unfolding lines has_newline
has_newline-lines [] = refl
has_newline-lines (c ∷ s) = ground (arith, has_newline-lines s)

IsLine-All : (ls : List Text) → has_newline ls ≡ false → All IsUnreturned ls → All IsLine ls
unfolding has_newline
IsLine-All [] h u = tt
IsLine-All (l ∷ ls) h (u, us) = (ground (arith, h, u), IsLine-All ls (ground (arith, h)) us)

pub IsLine-lines : (s : Text) → All IsUnreturned (lines s) → All IsLine (lines s)
IsLine-lines s u = IsLine-All (lines s) (has_newline-lines s) u

pub All-append : (xs ys : List Text) → All IsLine xs → All IsLine ys → All IsLine (xs ++ ys)
All-append [] ys h g = g
All-append (x ∷ xs) ys (h, hs) g = (h, All-append xs ys hs g)

-- A line that ends with another.
pub IsLine-append :
    (s t : Text) (c : ℕ) → has_char 10 s ≡ false → IsLine (c ∷ t) → IsLine (s ++ c ∷ t)
unfolding ends_with_char
IsLine-append [] t c h g = g
IsLine-append (d ∷ []) t c h g = ground (arith, h, g)
IsLine-append (d ∷ e ∷ s) t c h g =
    ground (arith, h, IsLine-append (e ∷ s) t c (ground (arith, h)) g)
