-- ===== src/Config/Ini/Lines.antt =====
-- application/src/server/configuration/process.rs: the lines of the ini file that is written.
use cyrogopus.Prelude.{
  ℕ, suc, zero, false, ◌||◌, ◌≤◌, List, [], ◌∷◌, ◌++◌, Option, none, some, ◌≡◌, refl, ap, ◌∙◌,
  arith, inl, inr, All, Option-cases, Bool-cases, length, take,
}
use cyrogopus.Config.Text.{Text, ends_with_char, split_once, lines, has_text}
use cyrogopus.Config.Text.Trim.{has_char, split_once-some}
use cyrogopus.Config.Text.Lines.{
  IsLine, IsUnreturned, shown, lines-join_lines, IsLine-lines, All-append, IsLine-append,
}
use cyrogopus.Config.Properties.{Replacement}
use cyrogopus.Config.Properties.Lines.{IsWritable, IsValue-some, IsLine-format}
use cyrogopus.Config.Ini.{
  positions, position_of, set_line, Written, add_key, write_at, write_all, edit_ini,
  process_ini_file,
}
use cyrogopus.Config.Ini.Owner.{length-write_all}
use cyrogopus.Config.Ini.File.{edited, take-edit_ini}

has_char-append : (c : ℕ) (s t : Text) → has_char c (s ++ t) ≡ (has_char c s || has_char c t)
has_char-append c [] t = ground arith
has_char-append c (d ∷ s) t = ground (arith, has_char-append c s t)

-- The parts of a match without a newline have none.
abbrev IsPart : Option (Text × Text) → Type 0
IsPart none = Unit
IsPart (some (section, key)) = (has_char 10 section ≡ false) × (has_char 10 key ≡ false)

IsPart-split :
    (s : Text) (o : Option (Text × Text)) → has_char 10 s ≡ false → split_once 46 s ≡ o → IsPart o
IsPart-split s none h e = tt
IsPart-split s (some (a, b)) h e =
    let whole = (split_once-some 46 s a b e).0 in
    let parts = has_char-append 10 a (46 ∷ b) in
    (ground (arith, h, whole, parts), ground (arith, h, whole, parts))

IsLine-set_line :
    (i : ℕ) (line : Text) (ls : List Text)
    → IsLine line
    → All IsLine ls
    → All IsLine (set_line i line ls)
unfolding set_line
IsLine-set_line i line [] h g = tt
IsLine-set_line zero line (l ∷ ls) h (g, gs) = (h, gs)
IsLine-set_line (suc i) line (l ∷ ls) h (g, gs) = (g, IsLine-set_line i line ls h gs)

IsLine-header : (section : Text) → has_char 10 section ≡ false → IsLine (91 ∷ section ++ (93 ∷ []))
unfolding ends_with_char
IsLine-header section h = IsLine-append (91 ∷ section) [] 93 (ground (arith, h)) refl

IsLine-add_key :
    (section key value : Text) (w : Written)
    → has_char 10 section ≡ false
    → has_char 10 key ≡ false
    → IsLine value
    → All IsLine w.0
    → All IsLine (add_key section key value w).0
IsLine-add_key section key value (ls, sections) s k v g =
    let line = IsLine-format key value k v in
    elim (Bool-cases (has_text section sections)) [
      | inl e ↦ rw e (All-append ls _ g (line, tt))
      | inr e ↦ rw e (All-append ls _ g (IsLine-header section s, (line, tt)))
    ]

IsLine-write_at :
    (o : Option ℕ) (parts : Option (Text × Text)) (whole value : Text) (w : Written)
    → IsPart parts
    → has_char 10 whole ≡ false
    → IsLine value
    → All IsLine w.0
    → All IsLine (write_at o parts whole value w).0
IsLine-write_at (some i) (some (section, key)) whole value (ls, sections) p n v g =
    IsLine-set_line i _ ls (IsLine-format key value p.1 v) g
IsLine-write_at (some i) none whole value (ls, sections) p n v g =
    IsLine-set_line i _ ls (IsLine-format whole value n v) g
IsLine-write_at none (some (section, key)) whole value w p n v g =
    IsLine-add_key section key value w p.0 p.1 v g
IsLine-write_at none none whole value (ls, sections) p n v g =
    All-append ls _ g (IsLine-format whole value n v, tt)

IsLine-write_all :
    (ps : List (Text × ℕ)) (rs : List Replacement) (w : Written)
    → All IsWritable rs
    → All IsLine w.0
    → All IsLine (write_all ps rs w).0
unfolding write_all
IsLine-write_all ps [] w h g = g
IsLine-write_all ps (r ∷ rs) w (h, hs) g = elim (Option-cases r.value) [
  | inl o ↦ rw o (IsLine-write_all ps rs w hs g)
  | inr (v, o) ↦
      let m = r.match_key in
      rw o (
        IsLine-write_all ps rs (write_at (position_of m ps) (split_once 46 m) m v w) hs (
          IsLine-write_at (position_of m ps) (split_once 46 m) m v w
            (IsPart-split m (split_once 46 m) h.0 refl) h.0 (IsValue-some r.value v h.1 o) g))
]

take-shown : (n : ℕ) (ls : List Text) → n ≤ length ls → take n (shown ls) ≡ take n ls
take-shown zero ls h = refl
take-shown (suc n) [] h = absurd (omega (arith, h))
take-shown (suc n) (l ∷ ls) h = refl

-- The lines of a processed ini file are, in their places, those of the file: empty lines, comments,
-- section headers and lines without an equals sign as they were, and the line of a key, which is in
-- the section of the header before it, as it was where the same key comes again or no replacement
-- of the key has a value; else it is the name of the key with the value of the last one that has. The
-- name is what follows the first dot of the key with its section. Matches and values have no
-- newline, and neither values nor the lines of the file end with a carriage return.
pub take-process_ini_file :
    (rs : List Replacement) (content : Text)
    → All IsWritable rs
    → All IsUnreturned (lines content)
    → take (length (lines content)) (lines (process_ini_file rs content))
      ≡ edited rs [] (lines content)
unfolding process_ini_file edit_ini
take-process_ini_file rs content w u =
    let ls = lines content in
    let ps = positions [] 0 ls in
    let clean = IsLine-write_all ps rs (ls, []) w (IsLine-lines content u) in
    ap (take (length ls)) (lines-join_lines (edit_ini rs ls) clean)
    ∙ take-shown (length ls) (edit_ini rs ls) (length-write_all ps rs (ls, []))
    ∙ take-edit_ini rs ls
