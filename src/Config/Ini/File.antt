-- ===== src/Config/Ini/File.antt =====
-- application/src/server/configuration/process.rs: the lines of an ini file after its replacements.
use cyrogopus.Prelude.{
  ℕ, suc, zero, Bool, true, false, ◌+◌, ◌≤◌, ◌<◌, List, [], ◌∷◌, none, some, ◌≡◌, refl, ap, ◌∙◌,
  sym, arith, inl, inr, Option-cases, if◌then◌else◌, length, take, is_some,
}
use cyrogopus.Config.Text.{Text, split_once, has_text}
use cyrogopus.Config.Properties.{Replacement, format}
use cyrogopus.Config.Properties.Edit.{added}
use cyrogopus.Config.Ini.{full_key, positions, position_of, write_all, edit_ini}
use cyrogopus.Config.Ini.Positions.{IsRising, positions-IsRising}
use cyrogopus.Config.Ini.Edit.{nth, written, name_of}
use cyrogopus.Config.Ini.Owner.{owner, placed, nth-placed, length-write_all}
use cyrogopus.Config.Ini.Kinds.{
  other, section_header, key_line, kind, keys_of, data_of, positions-kind, Kind-cases,
  is_some-position_of,
}

-- The name of a key with the value of the last replacement of the key that has one.
abbrev unwrapped : List Replacement → Text → Text → Text
unwrapped rs k line = elim (added k rs) [
  | none ↦ line
  | some v ↦ format (name_of (split_once 46 k) k) v
]

-- The line of a key of the file: it stays as it is where the key comes again.
abbrev key_written : List Replacement → Bool → Text → Text → Text
key_written rs again k line = if again then line else unwrapped rs k line

-- The lines of a section and those after it, each as the replacements leave it.
abbrev pub edited : List Replacement → Text → List Text → List Text
edited rs section [] = []
edited rs section (line ∷ lines) = elim (kind line) [
  | other ↦ line ∷ edited rs section lines
  | section_header s ↦ line ∷ edited rs s lines
  | key_line k ↦
      key_written rs (has_text (full_key section k) (keys_of section lines)) (full_key section k)
        line
      ∷ edited rs section lines
]

owner-below : (ps : List (Text × ℕ)) (n i : ℕ) → IsRising n ps → i < n → owner i ps ≡ none
owner-below [] n i r h = refl
owner-below ((k, j) ∷ ps) n i (a, r) h =
    ground (arith, owner-below ps (suc j) i r (omega (arith, h, a)), h, a)

written-unwrapped :
    (rs : List Replacement) (k line : Text) → written k rs (some line) ≡ some (unwrapped rs k line)
written-unwrapped rs k line = elim (Option-cases (added k rs)) [
  | inl e ↦ ground (arith, e)
  | inr (v, e) ↦ ground (arith, e)
]

owner-here :
    (n : ℕ) (k : Text) (ps : List (Text × ℕ))
    → owner (n + 0) ((k, n) ∷ ps) ≡ (if is_some (position_of k ps) then none else some k)
owner-here n k ps = ground arith

owner-later :
    (n i : ℕ) (k : Text) (ps : List (Text × ℕ))
    → owner (n + suc i) ((k, n) ∷ ps) ≡ owner (n + suc i) ps
owner-later n i k ps = ground arith

placed-if :
    (rs : List Replacement) (b : Bool) (k line : Text)
    → some (key_written rs b k line) ≡ placed rs (if b then none else some k) (some line)
placed-if rs true k line = refl
placed-if rs false k line = sym (written-unwrapped rs k line)

nth-edited :
    (rs : List Replacement) (lines : List Text) (section : Text) (n i : ℕ)
    → i < length lines
    → nth i (edited rs section lines)
      ≡ placed rs (owner (n + i) (positions section n lines)) (nth i lines)
unfolding data_of
nth-edited rs [] section n i h = absurd (omega (arith, h))
nth-edited rs (line ∷ lines) section n zero h =
    let free : (s : Text) → owner (n + 0) (positions s (suc n) lines) ≡ none =
      λ s. owner-below _ (suc n) (n + 0) (positions-IsRising lines s (suc n)) (omega arith) in
    elim (Kind-cases (kind line)) [
      | inl e ↦ rw (edited, e) (ap (λ o. placed rs o (some line)) (sym (free section)))
      | inr (inl (s, e)) ↦ rw (edited, e) (ap (λ o. placed rs o (some line)) (sym (free s)))
      | inr (inr (k, e)) ↦
          let full = full_key section k in
          rw (edited, e)
            (placed-if rs (has_text full (keys_of section lines)) full line
              ∙ ap (λ o. placed rs o (some line))
                  (sym (
                    owner-here n full (positions section (suc n) lines)
                    ∙ ap (λ b. if b then none else some full)
                        (is_some-position_of lines section (suc n) full))))
    ]
    ∙ ap (λ ps. placed rs (owner (n + 0) ps) (some line))
        (sym (positions-kind section n line lines))
nth-edited rs (line ∷ lines) section n (suc i) h =
    let rest : (s : Text)
        → nth i (edited rs s lines)
          ≡ placed rs (owner (n + suc i) (positions s (suc n) lines)) (nth i lines) =
      λ s.
        nth-edited rs lines s (suc n) i (omega (arith, h))
        ∙ ap (λ j. placed rs (owner j (positions s (suc n) lines)) (nth i lines)) (omega arith) in
    elim (Kind-cases (kind line)) [
      | inl e ↦ rw (edited, e) (rest section)
      | inr (inl (s, e)) ↦ rw (edited, e) (rest s)
      | inr (inr (k, e)) ↦
          rw (edited, e)
            (rest section
              ∙ ap (λ o. placed rs o (nth i lines)) (sym (owner-later n i (full_key section k) _)))
    ]
    ∙ ap (λ ps. placed rs (owner (n + suc i) ps) (nth i lines))
        (sym (positions-kind section n line lines))

pub length-edited :
    (rs : List Replacement) (section : Text) (lines : List Text)
    → length (edited rs section lines) ≡ length lines
length-edited rs section [] = refl
length-edited rs section (line ∷ lines) = elim (Kind-cases (kind line)) [
  | inl e ↦ rw (edited, e) (ap suc (length-edited rs section lines))
  | inr (inl (s, e)) ↦ rw (edited, e) (ap suc (length-edited rs s lines))
  | inr (inr (k, e)) ↦ rw (edited, e) (ap suc (length-edited rs section lines))
]

take-nth :
    (xs ys : List Text)
    → length xs ≤ length ys
    → ((i : ℕ) → i < length xs → nth i ys ≡ nth i xs)
    → take (length xs) ys ≡ xs
take-nth [] ys h e = refl
take-nth (x ∷ xs) [] h e = absurd (omega (arith, h))
take-nth (x ∷ xs) (y ∷ ys) h e =
    let first = e 0 (omega arith) in
    let rest = take-nth xs ys (omega (arith, h)) (λ i b. e (suc i) (omega (arith, b))) in
    ground (arith, first, rest)

pub take-edit_ini :
    (rs : List Replacement) (ls : List Text) → take (length ls) (edit_ini rs ls) ≡ edited rs [] ls
unfolding edit_ini
take-edit_ini rs ls =
    let ps = positions [] 0 ls in
    let size = length-edited rs [] ls in
    ap (λ n. take n (write_all ps rs (ls, [])).0) (sym size)
    ∙ take-nth (edited rs [] ls) (write_all ps rs (ls, [])).0
        (omega (arith, size, length-write_all ps rs (ls, [])))
        (λ i b.
          nth-placed ps rs (ls, []) i (positions-IsRising ls [] 0) (omega (arith, b, size))
          ∙ ap (λ j. placed rs (owner j ps) (nth i ls)) (omega arith)
          ∙ sym (nth-edited rs ls [] 0 i (omega (arith, b, size))))
