-- ===== src/Ssh/Username.antt =====
-- application/src/ssh/auth.rs: the names that a login takes.
use cyrogopus.Prelude.{
  ℕ, ◌≤◌, Bool, true, false, not, ◌&&◌, some, List, [], ◌∷◌, ◌++◌, ◌≡◌, ◌↔◌, ◌⊎◌, refl, arith, inl,
  inr, ap, sym, ◌∙◌, ◌==◌, ltb, all, length, Bool-cases,
}
use mathlib.Core.Path.{subst}
use cyrogopus.Ssh.{
  dot, is_ascii_hexdigit, cons_byte, split, last, is_server_name, validate_username,
}

and_true : (a b : Bool) → (a && b) ≡ true → (a ≡ true) × (b ≡ true)
and_true true true h = (refl, refl)
and_true true false h = ground arith
and_true false b h = ground arith

one_part :
    (r : List (List ℕ)) (u : List ℕ)
    → r ≡ u ∷ []
    → (not (ltb (length r) 2) && is_server_name (last r)) ≡ true
    → ⊥
one_part r u e h = ground (arith, ap length e, h)

last-cons : (x : List ℕ) (r : List (List ℕ)) → 1 ≤ length r → last (x ∷ r) ≡ last r
unfolding last
last-cons x [] h = ground arith
last-cons x (y ∷ r) h = refl

last-cons_byte : (c : ℕ) (r : List (List ℕ)) → 2 ≤ length r → last (cons_byte c r) ≡ last r
unfolding last
last-cons_byte c [] h = ground arith
last-cons_byte c (x ∷ []) h = ground arith
last-cons_byte c (x ∷ y ∷ r) h = refl

length-cons_byte : (c : ℕ) (r : List (List ℕ)) → 2 ≤ length r → length (cons_byte c r) ≡ length r
length-cons_byte c [] h = ground arith
length-cons_byte c (x ∷ r) h = refl

is_dot : (c : ℕ) → c == dot ≡ true → c ≡ dot
is_dot c h = ground arith

-- A text with a dot, as what stands before its last dot and what stands behind it.
abbrev Dotted : List ℕ → List ℕ → Type 0
Dotted u s =
    ((p : List ℕ) × (u ≡ p ++ dot ∷ s)) × (last (split u) ≡ some s) × (2 ≤ length (split u))

Dotted-dot : (u : List ℕ) → split u ≡ u ∷ [] → Dotted (dot ∷ u) u
unfolding split last
Dotted-dot u e = (([], refl), rw e refl, rw e (omega arith))

Dotted-cons : (c : ℕ) (u s : List ℕ) → Dotted u s → Dotted (c ∷ u) s
unfolding split
Dotted-cons c u s ((p, e), l, n) = elim (Bool-cases (c == dot)) [
  | inl h ↦ (
    (c ∷ p, ap (λ x. c ∷ x) e),
    rw h (last-cons [] (split u) (omega (arith, n)) ∙ l),
    rw h (omega (arith, n)),
  )
  | inr h ↦ (
    (c ∷ p, ap (λ x. c ∷ x) e),
    rw h (last-cons_byte c (split u) n ∙ l),
    rw h (omega (arith, length-cons_byte c (split u) n, n)),
  )
]

-- Each text is one part, or has a last dot.
split-cases : (u : List ℕ) → (split u ≡ u ∷ []) ⊎ ((s : List ℕ) × Dotted u s)
unfolding split
split-cases [] = inl refl
split-cases (c ∷ u) = elim (split-cases u) [
  | inr (s, d) ↦ inr (s, Dotted-cons c u s d)
  | inl e ↦ elim (Bool-cases (c == dot)) [
    | inl h ↦ inr (u, subst (λ x. Dotted (x ∷ u) u) (sym (is_dot c h)) (Dotted-dot u e))
    | inr h ↦ inl (rw h (rw e refl))
  ]
]

hex_ne_dot : (c : ℕ) → is_ascii_hexdigit c ≡ true → c == dot ≡ false
hex_ne_dot c h = ground arith

split-hex : (s : List ℕ) → all is_ascii_hexdigit s ≡ true → split s ≡ s ∷ []
unfolding split
split-hex [] h = refl
split-hex (c ∷ s) h =
    let (hc, hs) = and_true (is_ascii_hexdigit c) (all is_ascii_hexdigit s) h in
    rw (hex_ne_dot c hc) (rw (split-hex s hs) refl)

Dotted-append : (p s : List ℕ) → split s ≡ s ∷ [] → Dotted (p ++ dot ∷ s) s
Dotted-append [] s e = Dotted-dot s e
Dotted-append (c ∷ p) s e = Dotted-cons c (p ++ dot ∷ s) s (Dotted-append p s e)

-- The name of a login: anything, a dot, and the eight hexadecimal digits that name a server.
abbrev pub IsLoginName : List ℕ → Type 0
IsLoginName u =
    (p : List ℕ) × (s : List ℕ) × (u ≡ p ++ dot ∷ s)
    × (length s ≡ 8)
    × (all is_ascii_hexdigit s ≡ true)

is_server_name-parts :
    (s : List ℕ)
    → is_server_name (some s) ≡ true
    → (length s ≡ 8) × (all is_ascii_hexdigit s ≡ true)
is_server_name-parts s h = (ground (arith, h), ground (arith, h))

from_valid : (u : List ℕ) → validate_username u ≡ true → IsLoginName u
unfolding validate_username
from_valid u h = elim (split-cases u) [
  | inl e ↦ absurd (one_part (split u) u e h)
  | inr (s, ((p, e), l, n)) ↦
      let (a, b) = is_server_name-parts s (ap is_server_name (sym l) ∙ (and_true _ _ h).1) in
      (p, s, e, a, b)
]

to_valid : (u : List ℕ) → IsLoginName u → validate_username u ≡ true
unfolding validate_username
to_valid u (p, s, e, a, b) =
    let (q, l, n) = Dotted-append p s (split-hex s b) in rw e (rw l (ground (arith, a, b, n)))

-- A login name is taken if and only if it is any text, a dot, and eight hexadecimal digits.
pub validate_username-IsLoginName : (u : List ℕ) → (validate_username u ≡ true) ↔ IsLoginName u
validate_username-IsLoginName u = (from_valid u, to_valid u)
