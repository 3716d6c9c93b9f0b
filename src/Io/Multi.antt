-- ===== src/Io/Multi.antt =====
-- application/src/server/filesystem/archive/multi_reader.rs: a reader with an offset of its own on
-- a file that several readers share. An offset of a seek is an i64.
pub mod Bounds
use cyrogopus.Prelude.{ℕ, suc, Option, none, some}
use cyrogopus.Prelude.Int.{ℤ, pos, negsuc}
use cyrogopus.Prelude.Words.{saturating_add, saturating_sub, add_u64}

pub record MultiReader : Type 0 where
  pub file_size : ℕ
  pub offset : ℕ

unfoldable pub new : ℕ → MultiReader
new file_size = record { file_size = file_size; offset = 0 }

-- `outcome` is how many bytes the file's `read_at` returns at the offset.
unfoldable pub read : MultiReader → Option ℕ → MultiReader × Option ℕ
read r none = (r, none)
read r (some bytes_read) = (record r { offset = add_u64 r.offset bytes_read }, some bytes_read)

pub data SeekFrom : Type 0 where
  start : ℕ → SeekFrom
  end : ℤ → SeekFrom
  current : ℤ → SeekFrom

-- The move by an i64 that the two relative seeks share.
abbrev pub move_by : ℕ → ℤ → ℕ
move_by base (pos n) = saturating_add base n
move_by base (negsuc n) = saturating_sub base (suc n)

abbrev pub seek_offset : MultiReader → SeekFrom → ℕ
seek_offset r (start offset) = offset
seek_offset r (end offset) = move_by r.file_size offset
seek_offset r (current offset) = move_by r.offset offset

unfoldable pub seek : MultiReader → SeekFrom → MultiReader × ℕ
seek r to = let offset = seek_offset r to in (record r { offset = offset }, offset)
