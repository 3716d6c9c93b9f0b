-- ===== src/Config/Ini/Edit.antt =====
-- application/src/server/configuration/process.rs: what a line of an ini file is after the
-- replacements, by its place.
use cyrogopus.Prelude.{
  ℕ, suc, zero, ◌≤◌, ◌<◌, List, [], ◌∷◌, ◌++◌, Option, none, some, ◌≡◌, refl, arith, inl, inr,
  Option-cases, Bool-cases, if◌then◌else◌, length, length-append, ◌==◌,
}
use cyrogopus.Config.Text.{Text, same_text, split_once, has_text}
use cyrogopus.Config.Text.Trim.{same_text-true, same_text_refl}
use cyrogopus.Config.Properties.{Replacement, format}
use cyrogopus.Config.Properties.Edit.{added}
use cyrogopus.Config.Ini.{position_of, set_line, Written, write_at, write_all}
use cyrogopus.Config.Ini.Positions.{IsRising, position_of-injective}

abbrev pub nth : ℕ → List Text → Option Text
nth i [] = none
nth zero (l ∷ lines) = some l
nth (suc i) (l ∷ lines) = nth i lines

length-set_line :
    (lines : List Text) (i : ℕ) (line : Text) → length (set_line i line lines) ≡ length lines
unfolding set_line
length-set_line [] i line = refl
length-set_line (l ∷ lines) zero line = refl
length-set_line (l ∷ lines) (suc i) line = ground (arith, length-set_line lines i line)

nth-append :
    (lines more : List Text) (i : ℕ) → i < length lines → nth i (lines ++ more) ≡ nth i lines
nth-append [] more i h = absurd (omega (arith, h))
nth-append (l ∷ lines) more zero h = refl
nth-append (l ∷ lines) more (suc i) h = nth-append lines more i (omega (arith, h))

nth-set_line :
    (lines : List Text) (i j : ℕ) (line : Text)
    → i < length lines
    → nth i (set_line j line lines) ≡ (if i == j then some line else nth i lines)
unfolding set_line
nth-set_line [] i j line h = absurd (omega (arith, h))
nth-set_line (l ∷ lines) zero zero line h = refl
nth-set_line (l ∷ lines) zero (suc j) line h = ground arith
nth-set_line (l ∷ lines) (suc i) zero line h = ground arith
nth-set_line (l ∷ lines) (suc i) (suc j) line h =
    ground (arith, nth-set_line lines i j line (omega (arith, h)))

-- The name that a key is written with: what follows the first dot, where there is one.
abbrev pub name_of : Option (Text × Text) → Text → Text
name_of none whole = whole
name_of (some (section, key)) whole = key

-- The line that a replacement of the line `i` leaves.
abbrev pub line_at : ℕ → Option ℕ → Text → Option Text → Option Text
line_at i none line old = old
line_at i (some j) line old = if i == j then some line else old

pub nth-write_at :
    (o : Option ℕ) (parts : Option (Text × Text)) (whole value : Text) (w : Written) (i : ℕ)
    → i < length w.0
    → (nth i (write_at o parts whole value w).0
        ≡ line_at i o (format (name_of parts whole) value) (nth i w.0))
      × (length w.0 ≤ length (write_at o parts whole value w).0)
nth-write_at (some j) (some (section, key)) whole value (lines, sections) i h =
    (nth-set_line lines i j _ h, omega (arith, length-set_line lines j (format key value)))
nth-write_at (some j) none whole value (lines, sections) i h =
    (nth-set_line lines i j _ h, omega (arith, length-set_line lines j (format whole value)))
nth-write_at none (some (section, key)) whole value (lines, sections) i h =
    elim (Bool-cases (has_text section sections)) [
      | inl e ↦
          rw e (nth-append lines _ i h, omega (arith, length-append lines (format key value ∷ [])))
      | inr e ↦ rw e (
        nth-append lines _ i h,
        omega (arith, length-append lines ((91 ∷ section ++ (93 ∷ [])) ∷ format key value ∷ [])),
      )
    ]
nth-write_at none none whole value (lines, sections) i h =
    (nth-append lines _ i h, omega (arith, length-append lines (format whole value ∷ [])))

-- The value that the line of a key gets from the replacements.
abbrev pub written : Text → List Replacement → Option Text → Option Text
written k rs old = elim (added k rs) [
  | none ↦ old
  | some v ↦ some (format (name_of (split_once 46 k) k) v)
]

-- A replacement writes the line of a key exactly if it names the key.
line_at-position_of :
    (ps : List (Text × ℕ)) (m k line : Text) (i : ℕ) (old : Option Text)
    → IsRising 0 ps
    → position_of k ps ≡ some i
    → line_at i (position_of m ps) line old ≡ (if same_text m k then some line else old)
line_at-position_of ps m k line i old r h = elim (Bool-cases (same_text m k)) [
  | inl f ↦ let same : m ≡ k = same_text-true m k f in rw (same, h, same_text_refl k) ground arith
  | inr f ↦ elim (Option-cases (position_of m ps)) [
    | inl e ↦ ground (arith, e, f)
    | inr (j, e) ↦ elim (Bool-cases (i == j)) [
      | inl g ↦
          let here : position_of m ps ≡ some i = ground (arith, e, g) in
          let same : m ≡ k = position_of-injective ps 0 i m k r here h in
          absurd (ground (arith, f, same, same_text_refl k))
      | inr g ↦ ground (arith, e, f, g)
    ]
  ]
]

pub nth-write_all :
    (ps : List (Text × ℕ)) (rs : List Replacement) (w : Written) (k : Text) (i : ℕ)
    → IsRising 0 ps
    → position_of k ps ≡ some i
    → i < length w.0
    → nth i (write_all ps rs w).0 ≡ written k rs (nth i w.0)
unfolding write_all
nth-write_all ps [] w k i r h b = refl
nth-write_all ps (x ∷ rs) w k i r h b = elim (Option-cases x.value) [
  | inl e ↦ ground (arith, e, nth-write_all ps rs w k i r h b)
  | inr (v, e) ↦
      let m = x.match_key in
      let parts = split_once 46 m in
      let next = write_at (position_of m ps) parts m v w in
      let (line, longer) = nth-write_at (position_of m ps) parts m v w i b in
      let rest = nth-write_all ps rs next k i r h (omega (arith, b, longer)) in
      let at = line_at-position_of ps m k (format (name_of parts m) v) i (nth i w.0) r h in
      elim (Bool-cases (same_text m k)) [
        | inl f ↦
            let same : m ≡ k = same_text-true m k f in ground (arith, e, f, rest, line, at, same)
        | inr f ↦ ground (arith, e, f, rest, line, at)
      ]
]
