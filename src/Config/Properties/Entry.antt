-- ===== src/Config/Properties/Entry.antt =====
-- application/src/server/configuration/process.rs: a line that is written is read back.
use cyrogopus.Prelude.{
  Bool, true, false, not, ◌&&◌, [], ◌∷◌, ◌++◌, some, ◌==◌, ◌≡◌, refl, arith, inl, inr, Bool-cases,
  Option-cases,
}
use mathlib.Core.Path.{subst}
use cyrogopus.Config.Text.{Text, is_whitespace, trim_start, trim_end, trim, split_once}
use cyrogopus.Config.Text.Trim.{
  has_char, trim_end-cons, trim_end-trim_end, has_char-trim_end, has_char-trim_start,
  trim_start-cases, trim_start-append-cons, split_once-append, split_once-some,
}
use cyrogopus.Config.Properties.{format, is_comment, entry}

-- A text that does not begin with whitespace or with the sign of a comment.
abbrev pub begins_key : Text → Bool
begins_key [] = true
begins_key (c ∷ cs) = not (is_whitespace c) && not (c == 35)

-- A key that can be written: without whitespace around it, an equals sign in it or the sign of a
-- comment before it.
abbrev pub IsKey : Text → Type 0
IsKey k = (begins_key k ≡ true) × (trim_end k ≡ k) × (has_char 61 k ≡ false)

-- A line that begins with a key and an equals sign is not a comment.
is_comment-format : (k v : Text) → IsKey k → is_comment (format k v) ≡ false
unfolding trim_start trim_end is_whitespace
is_comment-format [] v h = ground arith
is_comment-format (c ∷ k) v h = ground (arith, h)

trim-IsKey : (k : Text) → IsKey k → trim k ≡ k
unfolding trim_start trim_end
trim-IsKey [] h = refl
trim-IsKey (c ∷ k) h = ground (arith, h)

pub entry-format : (k v : Text) → IsKey k → entry (format k v) ≡ some (k, v)
unfolding entry
entry-format k v h =
    let parts : split_once 61 (format k v) ≡ some (k, v) = split_once-append 61 k v h.2 in
    rw (is_comment-format k v h, parts, trim-IsKey k h) refl

-- The key of a line that is not a comment.
IsKey-trim : (a b : Text) → is_comment (format a b) ≡ false → has_char 61 a ≡ false → IsKey (trim a)
unfolding trim_end
IsKey-trim a b h e = elim (trim_start-cases a) [
  | inl s ↦ rw s (refl, refl, refl)
  | inr (c, t, s, w) ↦
      let begin : trim_start (format a b) ≡ c ∷ (t ++ 61 ∷ b) =
        trim_start-append-cons a (61 ∷ b) c t s in
      rw (s, trim_end-cons c t w)
        (
          ground (arith, h, w, begin, trim_end-cons c (t ++ 61 ∷ b) w),
          rw (trim_end-cons c (trim_end t) w, trim_end-trim_end t) refl,
          ground (arith, s, w, has_char-trim_start 61 a e, has_char-trim_end 61 t),
        )
]

-- What a line reads as has a key that can be written.
pub entry-IsKey : (line k w : Text) → entry line ≡ some (k, w) → IsKey k
unfolding entry
entry-IsKey line k w h = elim (Bool-cases (is_comment line)) [
  | inl e ↦ ground (arith, h, e)
  | inr e ↦ elim (Option-cases (split_once 61 line)) [
    | inl f ↦ ground (arith, h, e, f)
    | inr ((a, b), f) ↦
        let (joined, free) = split_once-some 61 line a b f in
        let key : trim a ≡ k = ground (arith, h, e, f) in
        let real : is_comment (format a b) ≡ false = subst (λ l. is_comment l ≡ false) joined e in
        rw (← key) (IsKey-trim a b real free)
  ]
]
