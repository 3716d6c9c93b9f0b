-- ===== src/Io/Fixed.antt =====
-- application/src/io/fixed_reader.rs: a reader of exactly `size` bytes, padded with zeros. The
-- wrapped reader is a parameter with one documented law of `Read`: no more bytes than asked for.
pub mod Exact
use Prim.Native.Nat.{min}
use cyrogopus.Prelude.{
  ℕ, zero, suc, ◌+◌, ◌-◌, ◌≤◌, Option, none, some, List, [], ◌∷◌, ◌++◌, ◌≡◌, leb, ltb, length,
  if◌then◌else◌,
}

pub record Source : Type 1 where
  pub State : Type 0
  pub read : State → ℕ → Option (List ℕ × State)
  pub read_bound :
      (s : State) (n : ℕ) (bytes : List ℕ) (s' : State)
      → read s n ≡ some (bytes, s')
      → length bytes ≤ n

abbrev pub zeros : ℕ → List ℕ
zeros zero = []
zeros (suc n) = 0 ∷ zeros n

module _ (source : Source) where
  open source use {State, read as read_source}

  pub record FixedReader : Type 0 where
    pub inner : State
    pub size : ℕ
    pub bytes_read : ℕ

  -- `FixedReader::new_with_fixed_bytes`.
  unfoldable pub new_with_fixed_bytes : State → ℕ → FixedReader
  new_with_fixed_bytes inner size = record { inner = inner; size = size; bytes_read = 0 }

  -- The bytes that a call puts at the front of a buffer of `len` bytes, or `none` for an error.
  unfoldable pub read : FixedReader → ℕ → Option (List ℕ × FixedReader)
  read r len =
      if leb r.size r.bytes_read
      then some ([], r)
      else (let to_read = min len (r.size - r.bytes_read) in
          elim (read_source r.inner to_read) [
            | none ↦ none
            | some (bytes, inner) ↦
                let got = length bytes in
                if ltb got to_read
                then some (
                  bytes ++ zeros (to_read - got),
                  record r { inner = inner; bytes_read = r.bytes_read + got + (to_read - got) },
                )
                else some (bytes, record r { inner = inner; bytes_read = r.bytes_read + got })
          ])
