-- ===== src/Prelude/Words.antt =====
-- The machine integers of the source: u64 counters as numbers below 2 ^ 64, i64 as ℤ. The release
-- build has no overflow checks, so plain arithmetic wraps.
use cyrogopus.Prelude.{ℕ, ◌+◌, ◌-◌, ◌%◌, ◌^◌, ◌<◌, ◌≡◌, arith, ltb, if◌then◌else◌}
use cyrogopus.Prelude.Int.{ℤ, pos, negsuc, ◌+ℤ◌}

abbrev pub u64_mod : ℕ
u64_mod = 2 ^ 64

abbrev pub i64_mod : ℕ
i64_mod = 2 ^ 63

abbrev pub u64_max : ℕ
u64_max = 2 ^ 64 - 1

-- u64::saturating_add and u64::saturating_sub.
abbrev pub saturating_add : ℕ → ℕ → ℕ
saturating_add a b = if ltb u64_max (a + b) then u64_max else a + b

abbrev pub saturating_sub : ℕ → ℕ → ℕ
saturating_sub a b = a - b

-- u64 `+`.
abbrev pub add_u64 : ℕ → ℕ → ℕ
add_u64 a b = (a + b) % u64_mod

-- `x as i64` of a u64.
abbrev pub as_i64 : ℕ → ℤ
as_i64 n = if ltb n i64_mod then pos n else negsuc (u64_mod - n - 1)

-- `x as u64` of an i64.
abbrev pub as_u64 : ℤ → ℕ
as_u64 (pos n) = n
as_u64 (negsuc n) = u64_mod - 1 - n

-- An i64 sum, brought back into range.
abbrev pub wrap_i64 : ℤ → ℤ
wrap_i64 (pos n) = if ltb n i64_mod then pos n else negsuc (u64_mod - n - 1)
wrap_i64 (negsuc n) = if ltb n i64_mod then negsuc n else pos (u64_mod - 1 - n)

abbrev pub add_i64 : ℤ → ℤ → ℤ
add_i64 a b = wrap_i64 (a +ℤ b)

pub add_i64-pos : (a b : ℕ) → a + b < i64_mod → add_i64 (pos a) (pos b) ≡ pos (a + b)
add_i64-pos a b h = ground arith

pub as_i64-pos : (n : ℕ) → n < i64_mod → as_i64 n ≡ pos n
as_i64-pos n h = ground arith
