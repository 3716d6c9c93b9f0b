-- ===== src/Io/Multi/Bounds.antt =====
-- application/src/server/filesystem/archive/multi_reader.rs: the offsets that seeks end at.
use Prim.Native.Nat.{min}
use cyrogopus.Prelude.{ℕ, ◌+◌, ◌-◌, ◌≤◌, ◌≡◌, refl, arith}
use cyrogopus.Prelude.Int.{ℤ, pos, negsuc, pos_part, neg_part}
use cyrogopus.Prelude.Words.{u64_max}
use cyrogopus.Io.Multi.{MultiReader, end, current, seek, move_by}

-- A number moved by an i64 and held to 0 and 2 ^ 64 - 1.
abbrev pub clamp : ℕ → ℤ → ℕ
clamp base delta = min u64_max (base + pos_part delta - neg_part delta)

move_by_lem : (base : ℕ) (delta : ℤ) → base ≤ u64_max → move_by base delta ≡ clamp base delta
move_by_lem base (pos n) h = ground arith
move_by_lem base (negsuc n) h = ground arith

-- A seek from the end or from the current offset ends at the sum, held to 0 and 2 ^ 64 - 1; it
-- returns the new offset, and a reader of the same file reads on from there.
seek-clamp :
    (r : MultiReader) (delta : ℤ)
    → r.file_size ≤ u64_max
    → r.offset ≤ u64_max
    → (seek r (end delta)
        ≡ (record r { offset = clamp r.file_size delta }, clamp r.file_size delta))
      × (seek r (current delta)
          ≡ (record r { offset = clamp r.offset delta }, clamp r.offset delta))
unfolding seek
seek-clamp r delta f o =
    (rw (move_by_lem r.file_size delta f) refl, rw (move_by_lem r.offset delta o) refl)
