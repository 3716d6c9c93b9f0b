-- ===== src/Io/Fixed/Exact.antt =====
-- application/src/io/fixed_reader.rs: the lengths of what a fixed reader delivers.
use Prim.Native.Nat.{min}
use cyrogopus.Prelude.{
  ℕ, zero, suc, ◌+◌, ◌-◌, ◌≡◌, refl, ap, Option, none, some, List, [], ◌∷◌, ◌++◌, arith, length,
  length-append, Option-cases, inl, inr,
}
use cyrogopus.Io.Fixed.{Source, zeros, FixedReader, read, new_with_fixed_bytes}

length-zeros : (n : ℕ) → length (zeros n) ≡ n
length-zeros zero = refl
length-zeros (suc n) = ap suc (length-zeros n)

abbrev pub sum : List ℕ → ℕ
sum [] = 0
sum (n ∷ ns) = n + sum ns

module _ (source : Source) where
  -- A read that succeeds fills the buffer as far as the size allows, whatever the wrapped reader
  -- gives, and counts what it gave.
  pub length-read :
      (r : FixedReader source) (len : ℕ) (bytes : List ℕ) (r' : FixedReader source)
      → read source r len ≡ some (bytes, r')
      → (length bytes ≡ min len (r.size - r.bytes_read))
        × (r'.bytes_read ≡ r.bytes_read + length bytes)
        × (r'.size ≡ r.size)
  unfolding read
  length-read r len bytes r' h =
      elim (Option-cases (source.read r.inner (min len (r.size - r.bytes_read)))) [
        | inl e ↦ ground (arith, e)
        | inr ((got, inner), e) ↦
            let pad = min len (r.size - r.bytes_read) - length got in
            ground (
              arith,
              e,
              length-append got (zeros pad),
              length-zeros pad,
              source.read_bound r.inner (min len (r.size - r.bytes_read)) got inner e,
            )
      ]

  -- Calls with buffers of the given lengths, one after the other, up to the first error.
  unfoldable pub drain : FixedReader source → List ℕ → Option (List ℕ × FixedReader source)
  drain r [] = some ([], r)
  drain r (len ∷ lens) = elim (read source r len) [
    | none ↦ none
    | some (bytes, r') ↦ elim (drain r' lens) [
      | none ↦ none
      | some (more, r'') ↦ some (bytes ++ more, r'')
    ]
  ]

  drain-length :
      (r : FixedReader source) (lens : List ℕ) (bytes : List ℕ) (r' : FixedReader source)
      → drain r lens ≡ some (bytes, r')
      → length bytes ≡ min (sum lens) (r.size - r.bytes_read)
  unfolding drain
  drain-length r [] bytes r' h = ground arith
  drain-length r (len ∷ lens) bytes r' h = elim (Option-cases (read source r len)) [
    | inl e ↦ ground (arith, e)
    | inr ((first, r₁), e) ↦ elim (Option-cases (drain r₁ lens)) [
      | inl e' ↦ ground (arith, e, e')
      | inr ((more, r₂), e') ↦ ground (
        arith,
        e,
        e',
        length-append first more,
        length-read r len first r₁ e,
        drain-length r₁ lens more r₂ e',
      )
    ]
  ]

  -- Reads into buffers of any lengths, none of which fails, deliver the size that the reader was
  -- made with, or all that the buffers hold where that is less: if the wrapped reader ends early or
  -- has more to give, no less and no more.
  length-drain :
      (inner : source.State) (size : ℕ) (lens : List ℕ) (bytes : List ℕ) (r : FixedReader source)
      → drain (new_with_fixed_bytes source inner size) lens ≡ some (bytes, r)
      → length bytes ≡ min (sum lens) size
  unfolding new_with_fixed_bytes
  length-drain inner size lens bytes r h =
      omega (arith, drain-length (new_with_fixed_bytes source inner size) lens bytes r h)
