-- ===== src/Config/Ini/Kinds.antt =====
-- application/src/server/configuration/process.rs: what the lines of an ini file are.
use cyrogopus.Prelude.{
  ℕ, suc, false, ◌&&◌, List, [], ◌∷◌, Option, none, some, ◌≡◌, ◌⊎◌, refl, ap, ◌∙◌, arith, inl, inr,
  Option-cases, if◌then◌else◌, is_some, ◌==◌,
}
use cyrogopus.Config.Text.{
  Text, trim, trim_start, trim_end, is_empty, ends_with_char, split_once, has_text,
}
use cyrogopus.Config.Ini.{inner, full_key, positions, position_of}

-- What a line is: the header of a section, a key, or neither.
pub data Kind : Type 0 where
  other : Kind
  section_header : Text → Kind
  key_line : Text → Kind

abbrev parsed : Option (Text × Text) → Kind
parsed none = other
parsed (some (key, value)) = key_line (trim key)

-- A line that begins with a semicolon or a number sign is none, one in brackets is a header, and one
-- with an equals sign a key.
abbrev kind_from : Text → Kind
kind_from [] = other
kind_from (c ∷ cs) =
    if c == 59
    then other
    else if c == 35
    then other
    else if c == 91 && ends_with_char 93 (c ∷ cs)
    then section_header (inner (c ∷ cs))
    else parsed (split_once 61 (c ∷ cs))

unfoldable pub kind : Text → Kind
kind line = if is_empty (trim line) then other else kind_from line

-- The keys of the lines in a section, with the sections that they are in.
abbrev pub keys_of : Text → List Text → List Text
keys_of section [] = []
keys_of section (line ∷ lines) = elim (kind line) [
  | other ↦ keys_of section lines
  | section_header s ↦ keys_of s lines
  | key_line k ↦ full_key section k ∷ keys_of section lines
]

-- The classification of the code is that of `kind`.
unfoldable pub data_of : Kind → Text → ℕ → List Text → List (Text × ℕ)
data_of other section i lines = positions section (suc i) lines
data_of (section_header s) section i lines = positions s (suc i) lines
data_of (key_line k) section i lines = (full_key section k, i) ∷ positions section (suc i) lines

positions-empty :
    (section : Text) (i : ℕ) (lines : List Text)
    → positions section i ([] ∷ lines) ≡ data_of (kind []) section i lines
unfolding positions data_of kind trim_start trim_end
positions-empty section i lines = refl

pub positions-kind :
    (section : Text) (i : ℕ) (line : Text) (lines : List Text)
    → positions section i (line ∷ lines) ≡ data_of (kind line) section i lines
unfolding positions data_of kind
positions-kind section i [] lines = positions-empty section i lines
positions-kind section i (c ∷ line) lines = elim (Option-cases (split_once 61 (c ∷ line))) [
  | inl e ↦ ground (arith, e)
  | inr ((k, v), e) ↦ ground (arith, e)
]

pub Kind-cases :
    (x : Kind)
    → (x ≡ other) ⊎ (((s : Text) × (x ≡ section_header s)) ⊎ ((k : Text) × (x ≡ key_line k)))
Kind-cases other = inl refl
Kind-cases (section_header s) = inr (inl (s, refl))
Kind-cases (key_line k) = inr (inr (k, refl))

is_some-cons :
    (j k : Text) (i : ℕ) (ps : List (Text × ℕ)) (ks : List Text)
    → is_some (position_of k ps) ≡ has_text k ks
    → is_some (position_of k ((j, i) ∷ ps)) ≡ has_text k (j ∷ ks)
unfolding position_of has_text
is_some-cons j k i ps ks h = elim (Option-cases (position_of k ps)) [
  | inl e ↦ ground (arith, h, e)
  | inr (x, e) ↦ ground (arith, h, e)
]

is_some-nil : (k section : Text) (i : ℕ) → is_some (position_of k (positions section i [])) ≡ false
unfolding positions position_of
is_some-nil k section i = refl

pub is_some-position_of :
    (lines : List Text) (section : Text) (i : ℕ) (k : Text)
    → is_some (position_of k (positions section i lines)) ≡ has_text k (keys_of section lines)
unfolding data_of has_text
is_some-position_of [] section i k = is_some-nil k section i
is_some-position_of (line ∷ lines) section i k =
    ap (λ ps. is_some (position_of k ps)) (positions-kind section i line lines)
    ∙ elim (Kind-cases (kind line)) [
      | inl e ↦ rw (keys_of, e) (is_some-position_of lines section (suc i) k)
      | inr (inl (s, e)) ↦ rw (keys_of, e) (is_some-position_of lines s (suc i) k)
      | inr (inr (j, e)) ↦
          rw (keys_of, e)
            (is_some-cons (full_key section j) k i _ _
              (is_some-position_of lines section (suc i) k))
    ]
