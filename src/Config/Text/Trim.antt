-- ===== src/Config/Text/Trim.antt =====
-- The operations of std on texts: what trimming and splitting leave.
use cyrogopus.Prelude.{
  ℕ, Bool, true, false, [], ◌∷◌, ◌++◌, some, ◌==◌, ◌≡◌, refl, arith, any, inl, inr, ◌⊎◌, Bool-cases,
  Option-cases,
}
use cyrogopus.Config.Text.{Text, is_whitespace, trim_start, trim_end, same_text, split_once}

abbrev pub has_char : ℕ → Text → Bool
has_char c s = any (λ d. d == c) s

pub trim_end-cons : (c : ℕ) (s : Text) → is_whitespace c ≡ false → trim_end (c ∷ s) ≡ c ∷ trim_end s
unfolding trim_end
trim_end-cons c s h = ground (arith, h)

pub trim_end-trim_end : (s : Text) → trim_end (trim_end s) ≡ trim_end s
unfolding trim_end
trim_end-trim_end [] = refl
trim_end-trim_end (c ∷ s) = ground (arith, trim_end-trim_end s)

pub has_char-trim_end : (c : ℕ) (s : Text) → has_char c s ≡ false → has_char c (trim_end s) ≡ false
unfolding trim_end
has_char-trim_end c [] h = h
has_char-trim_end c (d ∷ s) h = ground (arith, has_char-trim_end c s)

pub has_char-trim_start :
    (c : ℕ) (s : Text) → has_char c s ≡ false → has_char c (trim_start s) ≡ false
unfolding trim_start
has_char-trim_start c [] h = h
has_char-trim_start c (d ∷ s) h = ground (arith, has_char-trim_start c s)

-- The beginning of a text is empty or has no whitespace first.
pub trim_start-cases :
    (s : Text)
    → (trim_start s ≡ [])
      ⊎ ((c : ℕ) × (t : Text) × (trim_start s ≡ c ∷ t) × (is_whitespace c ≡ false))
unfolding trim_start
trim_start-cases [] = inl refl
trim_start-cases (c ∷ s) = elim (Bool-cases (is_whitespace c)) [
  | inl e ↦ rw e (trim_start-cases s)
  | inr e ↦ inr (c, s, rw e refl, e)
]

pub trim_start-append-cons :
    (s r : Text) (c : ℕ) (t : Text) → trim_start s ≡ c ∷ t → trim_start (s ++ r) ≡ c ∷ (t ++ r)
unfolding trim_start
trim_start-append-cons [] r c t h = ground (arith, h)
trim_start-append-cons (d ∷ s) r c t h = ground (arith, h, trim_start-append-cons s r c t)

pub split_once-append :
    (c : ℕ) (s r : Text) → has_char c s ≡ false → split_once c (s ++ c ∷ r) ≡ some (s, r)
unfolding split_once
split_once-append c [] r h = ground arith
split_once-append c (d ∷ s) r h = ground (arith, split_once-append c s r)

pub split_once-some :
    (c : ℕ) (s a b : Text)
    → split_once c s ≡ some (a, b)
    → (s ≡ a ++ c ∷ b) × (has_char c a ≡ false)
unfolding split_once
split_once-some c [] a b h = ground (arith, h)
split_once-some c (d ∷ s) a b h = elim (Option-cases (split_once c s)) [
  | inl e ↦ ground (arith, h, e)
  | inr ((x, y), e) ↦ ground (arith, h, e, split_once-some c s x y e)
]

pub same_text-true : (s t : Text) → same_text s t ≡ true → s ≡ t
unfolding same_text
same_text-true [] [] h = refl
same_text-true [] (d ∷ t) h = ground (arith, h)
same_text-true (c ∷ s) [] h = ground (arith, h)
same_text-true (c ∷ s) (d ∷ t) h = ground (arith, h, same_text-true s t)

pub same_text_refl : (s : Text) → same_text s s ≡ true
unfolding same_text
same_text_refl [] = refl
same_text_refl (c ∷ s) = ground (arith, same_text_refl s)
