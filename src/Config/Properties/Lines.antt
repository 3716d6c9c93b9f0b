-- ===== src/Config/Properties/Lines.antt =====
-- application/src/server/configuration/process.rs: each entry of the edited properties file is one line.
use cyrogopus.Prelude.{
  List, [], ◌∷◌, Option, none, some, ◌≡◌, refl, false, arith, inl, inr, All, Option-cases,
  Bool-cases, map,
}
use cyrogopus.Config.Text.{Text, has_text, ends_with_char}
use cyrogopus.Config.Text.Trim.{has_char, same_text-true}
use cyrogopus.Config.Text.Lines.{IsLine, IsLine-append}
use cyrogopus.Config.Properties.{Replacement, entry, replace, update_line, missing, format}

-- Replacements whose match has no newline and whose value is one line.
abbrev IsValue : Option Text → Type 0
IsValue none = Unit
IsValue (some v) = IsLine v

abbrev pub IsWritable : Replacement → Type 0
IsWritable r = (has_char 10 r.match_key ≡ false) × IsValue r.value

pub IsLine-format : (k v : Text) → has_char 10 k ≡ false → IsLine v → IsLine (format k v)
unfolding ends_with_char
IsLine-format k [] h g = IsLine-append k [] 61 h refl
IsLine-format k (c ∷ v) h g = IsLine-append k (c ∷ v) 61 h (ground (arith, g))

pub IsValue-some : (o : Option Text) (v : Text) → IsValue o → o ≡ some v → IsLine v
IsValue-some none v h e = ground (arith, e)
IsValue-some (some w) v h e = ground (arith, h, e)

IsLine-replace :
    (rs : List Replacement) (k w line : Text)
    → All IsWritable rs
    → IsLine line
    → IsLine (replace rs k w line)
unfolding replace
IsLine-replace [] k w line h l = l
IsLine-replace (r ∷ rs) k w line (h, hs) l = elim (Option-cases r.value) [
  | inl o ↦ ground (arith, o, IsLine-replace rs k w line hs l)
  | inr (v, o) ↦ ground (
    arith,
    o,
    IsLine-replace rs k w line hs l,
    same_text-true r.match_key k,
    IsLine-format r.match_key v h.0 (IsValue-some r.value v h.1 o),
  )
]

IsLine-update_line :
    (rs : List Replacement) (line : Text)
    → All IsWritable rs
    → IsLine line
    → IsLine (update_line rs line)
unfolding update_line
IsLine-update_line rs line h g = elim (Option-cases (entry line)) [
  | inl e ↦ ground (arith, e, g)
  | inr ((k, w), e) ↦ ground (arith, e, IsLine-replace rs k w line h g)
]

pub IsLine-updated :
    (rs : List Replacement) (ls : List Text)
    → All IsWritable rs
    → All IsLine ls
    → All IsLine (map (update_line rs) ls)
IsLine-updated rs [] h g = tt
IsLine-updated rs (line ∷ ls) h (g, gs) =
    (IsLine-update_line rs line h g, IsLine-updated rs ls h gs)

pub IsLine-missing :
    (processed : List Text) (rs : List Replacement)
    → All IsWritable rs
    → All IsLine (missing processed rs)
unfolding missing
IsLine-missing processed [] h = tt
IsLine-missing processed (r ∷ rs) (h, hs) = elim (Bool-cases (has_text r.match_key processed)) [
  | inl e ↦ rw e (IsLine-missing processed rs hs)
  | inr e ↦ elim (Option-cases r.value) [
    | inl o ↦ rw (e, o) (IsLine-missing processed rs hs)
    | inr (v, o) ↦
        rw (e, o)
          (
            IsLine-format r.match_key v h.0 (IsValue-some r.value v h.1 o),
            IsLine-missing processed rs hs,
          )
  ]
]
