-- ===== src/Config/Ini/Owner.antt =====
-- application/src/server/configuration/process.rs: the places of an ini file that no key has.
use cyrogopus.Prelude.{
  ℕ, suc, ◌≤◌, ◌<◌, List, [], ◌∷◌, Option, none, some, ◌≡◌, ◌≢◌, refl, ap, ◌∙◌, sym, arith, inl,
  inr, Option-cases, Bool-cases, if◌then◌else◌, length, is_some, ◌==◌,
}
use cyrogopus.Config.Text.{Text, split_once}
use cyrogopus.Config.Text.Trim.{same_text-true, same_text_refl}
use cyrogopus.Config.Properties.{Replacement, format}
use cyrogopus.Config.Ini.{position_of, Written, write_at, write_all}
use cyrogopus.Config.Ini.Positions.{IsRising, position_of-least}
use cyrogopus.Config.Ini.Edit.{nth, line_at, nth-write_at, nth-write_all, written, name_of}

-- The key whose line a place is, if it is one.
abbrev pub owner : ℕ → List (Text × ℕ) → Option Text
owner i [] = none
owner i ((k, j) ∷ ps) =
    if i == j then (if is_some (position_of k ps) then none else some k) else owner i ps

owner-position_of :
    (ps : List (Text × ℕ)) (n i : ℕ) (k : Text)
    → IsRising n ps
    → owner i ps ≡ some k
    → position_of k ps ≡ some i
unfolding position_of
owner-position_of [] n i k r h = ground (arith, h)
owner-position_of ((l, j) ∷ ps) n i k (a, r) h = elim (Bool-cases (i == j)) [
  | inl e ↦ elim (Option-cases (position_of l ps)) [
    | inl f ↦ ground (arith, h, e, f, same_text_refl l)
    | inr (x, f) ↦ ground (arith, h, e, f)
  ]
  | inr e ↦ ground (arith, h, e, owner-position_of ps (suc j) i k r)
]

owner-none :
    (ps : List (Text × ℕ)) (n i : ℕ) (m : Text)
    → IsRising n ps
    → owner i ps ≡ none
    → position_of m ps ≢ some i
unfolding position_of
owner-none [] n i m r h = ground arith
owner-none ((l, j) ∷ ps) n i m (a, r) h = λ here. elim (Bool-cases (i == j)) [
  | inl e ↦ elim (Option-cases (position_of m ps)) [
    | inl f ↦ ground (arith, h, e, f, here, same_text-true l m)
    | inr (x, f) ↦ ground (arith, h, e, f, here, position_of-least ps (suc j) x m r f)
  ]
  | inr e ↦ elim (Option-cases (position_of m ps)) [
    | inl f ↦ ground (arith, h, e, f, here)
    | inr (x, f) ↦ ground (arith, h, e, f, here, owner-none ps (suc j) i m r)
  ]
]

line_at-other :
    (o : Option ℕ) (i : ℕ) (line : Text) (old : Option Text)
    → o ≢ some i
    → line_at i o line old ≡ old
line_at-other none i line old h = refl
line_at-other (some j) i line old h = elim (Bool-cases (i == j)) [
  | inl e ↦ absurd (h (ap some (ground (arith, e))))
  | inr e ↦ rw e refl
]

-- A line that no key has stays.
nth-unowned :
    (ps : List (Text × ℕ)) (rs : List Replacement) (w : Written) (i : ℕ)
    → IsRising 0 ps
    → owner i ps ≡ none
    → i < length w.0
    → nth i (write_all ps rs w).0 ≡ nth i w.0
unfolding write_all
nth-unowned ps [] w i r h b = refl
nth-unowned ps (x ∷ rs) w i r h b = elim (Option-cases x.value) [
  | inl e ↦ ground (arith, e, nth-unowned ps rs w i r h b)
  | inr (v, e) ↦
      let m = x.match_key in
      let parts = split_once 46 m in
      let next = write_at (position_of m ps) parts m v w in
      let (line, longer) = nth-write_at (position_of m ps) parts m v w i b in
      let rest = nth-unowned ps rs next i r h (omega (arith, b, longer)) in
      let kept =
        line_at-other (position_of m ps) i (format (name_of parts m) v) (nth i w.0)
          (owner-none ps 0 i m r h) in
      ground (arith, e, rest, line, kept)
]

length-write_at :
    (o : Option ℕ) (parts : Option (Text × Text)) (whole value : Text) (w : Written)
    → length w.0 ≤ length (write_at o parts whole value w).0
length-write_at o parts whole value ([], sections) = omega arith
length-write_at o parts whole value (l ∷ ls, sections) =
    (nth-write_at o parts whole value (l ∷ ls, sections) 0 (omega arith)).1

pub length-write_all :
    (ps : List (Text × ℕ)) (rs : List Replacement) (w : Written)
    → length w.0 ≤ length (write_all ps rs w).0
unfolding write_all
length-write_all ps [] w = omega arith
length-write_all ps (x ∷ rs) w = elim (Option-cases x.value) [
  | inl e ↦ ground (arith, e, length-write_all ps rs w)
  | inr (v, e) ↦
      let m = x.match_key in
      let next = write_at (position_of m ps) (split_once 46 m) m v w in
      let longer = length-write_at (position_of m ps) (split_once 46 m) m v w in
      let rest = length-write_all ps rs next in ground (arith, e, rest, longer)
]

-- What a place has after the replacements.
abbrev pub placed : List Replacement → Option Text → Option Text → Option Text
placed rs none old = old
placed rs (some k) old = written k rs old

pub nth-placed :
    (ps : List (Text × ℕ)) (rs : List Replacement) (w : Written) (i : ℕ)
    → IsRising 0 ps
    → i < length w.0
    → nth i (write_all ps rs w).0 ≡ placed rs (owner i ps) (nth i w.0)
nth-placed ps rs w i r b = elim (Option-cases (owner i ps)) [
  | inl e ↦ nth-unowned ps rs w i r e b ∙ ap (λ o. placed rs o (nth i w.0)) (sym e)
  | inr (k, e) ↦
      nth-write_all ps rs w k i r (owner-position_of ps 0 i k r e) b
      ∙ ap (λ o. placed rs o (nth i w.0)) (sym e)
]
