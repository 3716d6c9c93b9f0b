-- ===== src/Installation/Output/Scan.antt =====
-- application/src/server/installation.rs: the lines of the output, read byte by byte.
use cyrogopus.Prelude.{
  ℕ, zero, suc, ◌+◌, ◌≤◌, ◌<◌, Bool, true, false, List, [], ◌∷◌, ◌++◌, Option, none, some, ◌==◌,
  leb, ltb, length, length-append, take, drop, if◌then◌else◌, ◌≡◌, refl, arith, inl, inr,
  Option-cases, Bool-cases, sym, ◌∙◌, ap,
}
use mathlib.Core.List.{append_assoc, append-nil}
use cyrogopus.Installation.Output.{
  Bytes, position, Output, sent, cut_lines, then_lines, read_stream, last_line, send_output,
}

-- A newline ends a line, and so does the byte behind 512 others.
abbrev pub scan : Bytes → Bytes → Output
scan line [] = ([], line)
scan line (b ∷ bs) =
    if b == 10
    then sent line (scan [] bs)
    else if length line == 512
    then sent line (scan (b ∷ []) bs)
    else scan (line ++ b ∷ []) bs

-- No newline among the first bytes, one more than `n`.
abbrev is_after : ℕ → Option ℕ → Bool
is_after n none = true
is_after n (some k) = ltb n k

scan-newline :
    (bs line : Bytes) (n : ℕ)
    → position bs ≡ some n
    → length line + n ≤ 512
    → scan line bs ≡ sent (line ++ take n bs) (scan [] (drop (suc n) bs))
unfolding position
scan-newline [] line n h b = absurd (ground (arith, h))
scan-newline (c ∷ bs) line n h b = elim (Bool-cases (c == 10)) [
  | inl e ↦ ground (arith, e, h, append-nil line)
  | inr e ↦ elim (Option-cases (position bs)) [
    | inl f ↦ absurd (ground (arith, e, h, f))
    | inr (m, f) ↦
        let more : n ≡ suc m = ground (arith, e, h, f) in
        let grown = length-append line (c ∷ []) in
        let rest = scan-newline bs (line ++ c ∷ []) m f (omega (arith, b, more, grown)) in
        ground (arith, e, b, more, rest, append_assoc line (c ∷ []) (take m bs))
  ]
]

scan-long :
    (n : ℕ) (bs line : Bytes)
    → length line + n ≡ 512
    → n < length bs
    → is_after n (position bs) ≡ true
    → scan line bs ≡ sent (line ++ take n bs) (scan [] (drop n bs))
unfolding position
scan-long n [] line e b h = absurd (omega (arith, b))
scan-long zero (c ∷ bs) line e b h = ground (arith, e, h, append-nil line)
scan-long (suc n) (c ∷ bs) line e b h =
    let grown = length-append line (c ∷ []) in
    let rest = scan-long n bs (line ++ c ∷ []) (omega (arith, e, grown)) (omega (arith, b)) in
    elim (Option-cases (position bs)) [
      | inl f ↦ ground (arith, e, h, f, rest, append_assoc line (c ∷ []) (take n bs))
      | inr (m, f) ↦ ground (arith, e, h, f, rest, append_assoc line (c ∷ []) (take n bs))
    ]

scan-short :
    (bs line : Bytes)
    → position bs ≡ none
    → length line + length bs ≤ 512
    → scan line bs ≡ ([], line ++ bs)
unfolding position
scan-short [] line h b = ground (arith, append-nil line)
scan-short (c ∷ bs) line h b =
    let grown = length-append line (c ∷ []) in
    let rest = scan-short bs (line ++ c ∷ []) in
    elim (Option-cases (position bs)) [
      | inl f ↦ ground (arith, h, f, b, grown, rest, append_assoc line (c ∷ []) bs)
      | inr (m, f) ↦ ground (arith, h, f)
    ]

length-drop : (n : ℕ) (bs : Bytes) → n ≤ length bs → length (drop n bs) + n ≡ length bs
length-drop zero bs h = omega arith
length-drop (suc n) [] h = absurd (omega (arith, h))
length-drop (suc n) (b ∷ bs) h = omega (arith, length-drop n bs (omega (arith, h)))

-- The tests against 512, read as bounds.
leb-above : (n : ℕ) → leb n 512 ≡ false → 512 < n
leb-above n h = ground (arith, h)

ltb-above : (n : ℕ) → ltb 512 n ≡ true → 512 < n
ltb-above n h = ground (arith, h)

position-length : (bs : Bytes) (n : ℕ) → position bs ≡ some n → n < length bs
unfolding position
position-length [] n h = absurd (ground (arith, h))
position-length (b ∷ bs) n h = elim (Option-cases (position bs)) [
  | inl f ↦ ground (arith, h, f)
  | inr (m, f) ↦ ground (arith, h, f, position-length bs m f)
]

is_after-some : (o : Option ℕ) (n : ℕ) → o ≡ some n → 512 < n → is_after 512 o ≡ true
is_after-some o n e h = ground (arith, e, h)

cut_lines-scan :
    (fuel : ℕ) (buffer : Bytes) → length buffer ≤ fuel → cut_lines fuel buffer ≡ scan [] buffer
unfolding cut_lines
cut_lines-scan zero [] h = refl
cut_lines-scan zero (b ∷ bs) h = absurd (omega (arith, h))
cut_lines-scan (suc fuel) buffer h = elim (Option-cases (position buffer)) [
  | inl e ↦ elim (Bool-cases (ltb 512 (length buffer))) [
    | inl f ↦
        let above = ltb-above (length buffer) f in
        let shorter = length-drop 512 buffer (omega (arith, above)) in
        let rest = cut_lines-scan fuel (drop 512 buffer) (omega (arith, h, shorter)) in
        let long = scan-long 512 buffer [] (omega arith) above (ground (arith, e)) in
        ground (arith, e, f, rest, long)
    | inr f ↦ ground (arith, e, f, scan-short buffer [] e (ground (arith, f)))
  ]
  | inr (n, e) ↦
      let inside = position-length buffer n e in
      elim (Bool-cases (leb n 512)) [
        | inl f ↦
            let shorter = length-drop (suc n) buffer (omega (arith, inside)) in
            let rest = cut_lines-scan fuel (drop (suc n) buffer) (omega (arith, h, shorter)) in
            let line = scan-newline buffer [] n e (ground (arith, f)) in
            ground (arith, e, f, rest, line)
        | inr f ↦
            let above = leb-above n f in
            let shorter = length-drop 512 buffer (omega (arith, above, inside)) in
            let rest = cut_lines-scan fuel (drop 512 buffer) (omega (arith, h, shorter)) in
            let long : 512 < length buffer = omega (arith, above, inside) in
            let line =
              scan-long 512 buffer [] (omega arith) long
                (is_after-some (position buffer) n e above) in
            ground (arith, e, f, rest, line)
      ]
]

scan-append :
    (xs line ys : Bytes)
    → scan line (xs ++ ys) ≡ then_lines (scan line xs).0 (scan (scan line xs).1 ys)
scan-append [] line ys = refl
scan-append (x ∷ xs) line ys =
    ground
      (arith, scan-append xs [] ys, scan-append xs (x ∷ []) ys, scan-append xs (line ++ x ∷ []) ys)

-- A part of a line, which no newline ends and which is not too long.
abbrev IsPart : Bytes → Type 0
IsPart line = (position line ≡ none) × (length line ≤ 512)

position-append :
    (line : Bytes) (b : ℕ)
    → position line ≡ none
    → (b == 10) ≡ false
    → position (line ++ b ∷ []) ≡ none
unfolding position
position-append [] b h e = ground (arith, e)
position-append (c ∷ line) b h e = elim (Option-cases (position line)) [
  | inl f ↦ ground (arith, h, f, e, position-append line b f e)
  | inr (n, f) ↦ ground (arith, h, f)
]

scan-IsPart : (bs line : Bytes) → IsPart line → IsPart (scan line bs).1
unfolding position
scan-IsPart [] line h = h
scan-IsPart (b ∷ bs) line (h, k) = elim (Bool-cases (b == 10)) [
  | inl e ↦ rw e (scan-IsPart bs [] (refl, omega arith))
  | inr e ↦ elim (Bool-cases (length line == 512)) [
    | inl f ↦ rw (e, f) (scan-IsPart bs (b ∷ []) (ground (arith, e), omega arith))
    | inr f ↦
        rw (e, f)
          (scan-IsPart bs (line ++ b ∷ [])
            (position-append line b h e, ground (arith, f, k, length-append line (b ∷ []))))
  ]
]

abbrev pub concat_all : List Bytes → Bytes
concat_all [] = []
concat_all (chunk ∷ stream) = chunk ++ concat_all stream

read_stream-scan :
    (stream : List Bytes) (buffer : Bytes)
    → IsPart buffer
    → read_stream buffer stream ≡ scan buffer (concat_all stream)
unfolding read_stream
read_stream-scan [] buffer h = refl
read_stream-scan (chunk ∷ stream) buffer (h, k) =
    let cut : cut_lines (length (buffer ++ chunk)) (buffer ++ chunk) ≡ scan buffer chunk =
      cut_lines-scan (length (buffer ++ chunk)) (buffer ++ chunk) (omega arith)
      ∙ scan-append buffer [] chunk
      ∙ ap (λ (o : Output). then_lines o.0 (scan o.1 chunk))
          (scan-short buffer [] h (omega (arith, k))) in
    let rest = read_stream-scan stream (scan buffer chunk).1 (scan-IsPart chunk buffer (h, k)) in
    rw (cut, rest) (sym (scan-append chunk buffer (concat_all stream)))

-- The lines that are sent are those that a reader of single bytes finds in the whole output, however
-- the output comes in parts: one that ends at each newline and behind each 512 bytes without one,
-- and the bytes left at the end where there are any.
pub send_output-scan :
    (stream : List Bytes) → send_output stream ≡ last_line (scan [] (concat_all stream))
unfolding send_output position
send_output-scan stream = ap last_line (read_stream-scan stream [] (refl, omega arith))
