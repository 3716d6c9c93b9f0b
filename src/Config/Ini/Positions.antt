-- ===== src/Config/Ini/Positions.antt =====
-- application/src/server/configuration/process.rs: the places of the keys of an ini file.
use cyrogopus.Prelude.{
  ℕ, suc, ◌≤◌, List, [], ◌∷◌, some, ◌≡◌, arith, inl, inr, Option-cases, Bool-cases,
}
use cyrogopus.Config.Text.{Text, split_once}
use cyrogopus.Config.Text.Trim.{same_text-true}
use cyrogopus.Config.Ini.{is_comment, is_header, inner, positions, position_of}

-- The indices from `i` on, each below the one that follows.
abbrev pub IsRising : ℕ → List (Text × ℕ) → Type 0
IsRising i [] = Unit
IsRising i ((k, j) ∷ ps) = (i ≤ j) × IsRising (suc j) ps

below : (i : ℕ) (ps : List (Text × ℕ)) → IsRising (suc i) ps → IsRising i ps
below i [] r = tt
below i ((k, n) ∷ ps) (a, r) = (omega (arith, a), r)

pub positions-IsRising :
    (lines : List Text) (section : Text) (i : ℕ) → IsRising i (positions section i lines)
unfolding positions
positions-IsRising [] section i = tt
positions-IsRising (line ∷ lines) section i = elim (Bool-cases (is_comment line)) [
  | inl e ↦ rw e (below i _ (positions-IsRising lines section (suc i)))
  | inr e ↦ elim (Bool-cases (is_header line)) [
    | inl f ↦ rw (e, f) (below i _ (positions-IsRising lines (inner line) (suc i)))
    | inr f ↦ elim (Option-cases (split_once 61 line)) [
      | inl g ↦ rw (e, f, g) (below i _ (positions-IsRising lines section (suc i)))
      | inr ((a, b), g) ↦ rw (e, f, g) (omega arith, positions-IsRising lines section (suc i))
    ]
  ]
]

pub position_of-least :
    (ps : List (Text × ℕ)) (i n : ℕ) (k : Text) → IsRising i ps → position_of k ps ≡ some n → i ≤ n
unfolding position_of
position_of-least [] i n k r h = ground (arith, h)
position_of-least ((j, m) ∷ ps) i n k (a, r) h = elim (Option-cases (position_of k ps)) [
  | inl e ↦ ground (arith, h, e, a)
  | inr (x, e) ↦
      let later : suc m ≤ x = position_of-least ps (suc m) x k r e in ground (arith, h, e, a, later)
]

-- Two keys at one place are the same key.
pub position_of-injective :
    (ps : List (Text × ℕ)) (i n : ℕ) (j k : Text)
    → IsRising i ps
    → position_of j ps ≡ some n
    → position_of k ps ≡ some n
    → j ≡ k
unfolding position_of
position_of-injective [] i n j k r h g = ground (arith, h)
position_of-injective ((l, m) ∷ ps) i n j k (a, r) h g = elim (Option-cases (position_of j ps)) [
  | inl e ↦ elim (Option-cases (position_of k ps)) [
    | inl f ↦ ground (arith, h, g, e, f, same_text-true l j, same_text-true l k)
    | inr (y, f) ↦ absurd (ground (arith, h, g, e, f, position_of-least ps (suc m) y k r f))
  ]
  | inr (x, e) ↦ elim (Option-cases (position_of k ps)) [
    | inl f ↦ absurd (ground (arith, h, g, e, f, position_of-least ps (suc m) x j r e))
    | inr (y, f) ↦
        position_of-injective ps (suc m) n j k r (ground (arith, h, e)) (ground (arith, g, f))
  ]
]
