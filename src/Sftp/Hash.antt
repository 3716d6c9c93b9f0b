-- ===== src/Sftp/Hash.antt =====
-- application/src/ssh/sftp.rs: the part of a file that check-file hashes.
use cyrogopus.Prelude.{
  ℕ, ◌+◌, ◌-◌, ◌<◌, ◌≤◌, ◌^◌, Bool, true, false, ◌||◌, none, some, List, [], ◌∷◌, ◌≡◌, refl, arith,
  ltb, leb, if◌then◌else◌, inl, inr, Bool-cases,
}
use cyrogopus.Prelude.Words.{add_u64}
use cyrogopus.Sftp.Extended.{hash_bytes, cons_slice, hash_loop}

abbrev pub sum : List ℕ → ℕ
sum [] = 0
sum (c ∷ cs) = c + sum cs

-- Whether one of the chunks, after `total` bytes, starts beyond the length.
abbrev pub starts_beyond : ℕ → ℕ → List ℕ → Bool
starts_beyond length total [] = false
starts_beyond length total (c ∷ cs) = ltb length total || starts_beyond length (total + c) cs

-- The chunks cut off at the length.
abbrev pub clip : ℕ → ℕ → List ℕ → List ℕ
clip length total [] = []
clip length total (c ∷ cs) =
    (if ltb length (total + c) then length - total else c) ∷ clip length (total + c) cs

hash_bytes-within :
    (length total c : ℕ)
    → 0 < length
    → total ≤ length
    → total + c < 2 ^ 63
    → length < 2 ^ 63
    → hash_bytes length c (add_u64 total c) ≡ (if ltb length (total + c) then length - total else c)
hash_bytes-within length total c p h b l = ground arith

hash_bytes-beyond :
    (length total c : ℕ)
    → 0 < length
    → length < total
    → total + c < 2 ^ 63
    → leb (hash_bytes length c (add_u64 total c)) c ≡ false
hash_bytes-beyond length total c p h b = ground arith

clip_le : (length total c : ℕ) → (if ltb length (total + c) then length - total else c) ≤ c
clip_le length total c = ground arith

leb_of_le : (a b : ℕ) → a ≤ b → leb a b ≡ true
leb_of_le a b h = ground arith

add_u64_small : (a b : ℕ) → a + b < 2 ^ 63 → add_u64 a b ≡ a + b
add_u64_small a b h = ground arith

cons_slice-if :
    (n : ℕ) (b : Bool) (ns : List ℕ)
    → cons_slice n (if b then none else some ns) ≡ (if b then none else some (n ∷ ns))
cons_slice-if n true ns = refl
cons_slice-if n false ns = refl

-- check-file hashes the chunks of a file cut off at the length that the client gives, if no chunk
-- starts beyond that length; where one does, the handler panics. For a file and a length of less
-- than 2 ^ 63 bytes, the length not 0, at any point of the loop.
hash_loop_lem :
    (length : ℕ) (chunks : List ℕ) (total : ℕ)
    → 0 < length
    → length < 2 ^ 63
    → total + sum chunks < 2 ^ 63
    → hash_loop length total chunks
      ≡ (if starts_beyond length total chunks then none else some (clip length total chunks))
unfolding hash_loop
hash_loop_lem length [] total p l b = refl
hash_loop_lem length (c ∷ cs) total p l b = elim (Bool-cases (ltb length total)) [
  | inl e ↦
      rw (hash_bytes-beyond length total c p (ground (arith, e)) (omega (arith, b))) (rw e refl)
  | inr e ↦ rw (hash_bytes-within length total c p (ground (arith, e)) (omega (arith, b)) l) (
      rw (leb_of_le _ c (clip_le length total c)) (
        rw e (
          rw (add_u64_small total c (omega (arith, b))) (
            rw (hash_loop_lem length cs (total + c) p l (omega (arith, b))) (
              cons_slice-if _ (starts_beyond length (total + c) cs)
                (clip length (total + c) cs))))))
]
