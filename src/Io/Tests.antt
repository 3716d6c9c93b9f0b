-- ===== src/Io/Tests.antt =====
-- Runs of the readers.
use cyrogopus.Prelude.{
  ℕ, zero, suc, ◌≤◌, List, [], ◌∷◌, Option, some, ◌≡◌, arith, length, take, drop,
}
use cyrogopus.Io.Fixed.{Source}

length-take : (n : ℕ) (bytes : List ℕ) → length (take n bytes) ≤ n
length-take zero bytes = omega arith
length-take (suc n) [] = omega arith
length-take (suc n) (b ∷ bytes) = omega (arith, length-take n bytes)

read_some : List ℕ → ℕ → Option (List ℕ × List ℕ)
read_some s n = some (take n s, drop n s)

read_some-bound :
    (s : List ℕ) (n : ℕ) (bytes : List ℕ) (s' : List ℕ)
    → read_some s n ≡ some (bytes, s')
    → length bytes ≤ n
unfolding read_some
read_some-bound s n bytes s' h = ground (arith, h, length-take n s)

-- A list of bytes that is read from its front.
abbrev bytes_source : Source
bytes_source = record { State = List ℕ; read = read_some; read_bound = read_some-bound }
