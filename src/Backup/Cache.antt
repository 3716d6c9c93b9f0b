-- ===== src/Backup/Cache.antt =====
-- A hash map by a number, as an association list with one entry for each key.
use cyrogopus.Prelude.{
  ℕ, Bool, not, List, [], ◌∷◌, Option, none, some, ◌==◌, All, inl, inr, Bool-cases, if◌then◌else◌,
}

module _ {ℓ} {A : Type ℓ} where
  unfoldable pub get : ℕ → List (ℕ × A) → Option A
  get u [] = none
  get u ((v, x) ∷ xs) = if v == u then some x else get u xs

  unfoldable pub retain : (ℕ × A → Bool) → List (ℕ × A) → List (ℕ × A)
  retain p [] = []
  retain p (x ∷ xs) = let rest = retain p xs in if p x then x ∷ rest else rest

  abbrev pub insert : ℕ → A → List (ℕ × A) → List (ℕ × A)
  insert u x xs = (u, x) ∷ retain (λ e. not (e.0 == u)) xs

  pub retain-All {κ} :
      (P : ℕ × A → Type κ) (p : ℕ × A → Bool) (xs : List (ℕ × A)) → All P xs → All P (retain p xs)
  unfolding retain
  retain-All P p [] h = tt
  retain-All P p (x ∷ xs) (a, h) = elim (Bool-cases (p x)) [
    | inl e ↦ rw e (a, retain-All P p xs h)
    | inr e ↦ rw e (retain-All P p xs h)
  ]
