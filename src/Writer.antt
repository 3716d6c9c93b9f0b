-- ===== src/Writer.antt =====
-- application/src/server/filesystem/writer.rs: `FileSystemWriter`, which charges the bytes that it
-- writes to the server's disk usage in steps of at least `allocation_threshold`. The buffered file
-- is a parameter: each call is given what it returns, `none` for an error.
pub mod Accounting
pub mod Run
pub mod Async
mod Tests
use cyrogopus.Prelude.{
  ℕ, ◌*◌, ◌-◌, String, Bool, true, false, not, List, Option, none, some, ltb, leb, if◌then◌else◌,
}
use cyrogopus.Prelude.Int.{ℤ, pos, negsuc, ltb_ℤ}
use cyrogopus.Prelude.Words.{add_u64, as_i64, add_i64}
use cyrogopus.Filesystem.{Filesystem, allocate_in_path_slice}

pub data Error : Type 0 where
  storage_full not_available inner : Error

pub data IoResult {ℓ} (A : Type ℓ) : Type ℓ where
  ok : A → IoResult A
  err : Error → IoResult A

abbrev pub allocation_threshold : ℤ
allocation_threshold = pos (1024 * 1024)

-- `is_open` is `writer.is_some()`; `filesystem` is the server's.
pub record FileSystemWriter : Type 0 where
  pub filesystem : Filesystem
  pub parent : List String
  pub is_open : Bool
  pub ignorant : Bool
  pub accumulated_bytes : ℤ  -- i64
  pub current_position : ℕ  -- u64
  pub highest_position : ℕ  -- u64

-- `FileSystemWriter::new`, once the file is there.
unfoldable pub new : Filesystem → List String → FileSystemWriter
new fs parent = record {
  filesystem = fs;
  parent = parent;
  is_open = true;
  ignorant = false;
  accumulated_bytes = pos 0;
  current_position = 0;
  highest_position = 0;
}

unfoldable pub ignore_limit : FileSystemWriter → FileSystemWriter
ignore_limit w = record w { ignorant = true }

unfoldable pub allocate_accumulated : FileSystemWriter → FileSystemWriter × IoResult (Unit {0})
allocate_accumulated w =
    let (fs, done) = allocate_in_path_slice w.filesystem w.parent w.accumulated_bytes w.ignorant in
    if ltb_ℤ (pos 0) w.accumulated_bytes
    then (if done
        then (record w { filesystem = fs; accumulated_bytes = pos 0 }, ok tt)
        else (record w { filesystem = fs }, err storage_full))
    else (w, ok tt)

-- The position after `written` bytes, and the bytes that this adds to the file.
unfoldable pub advance : FileSystemWriter → ℕ → FileSystemWriter
advance w written =
    let position = add_u64 w.current_position written in
    if ltb w.highest_position position
    then record w {
      current_position = position;
      accumulated_bytes = add_i64 w.accumulated_bytes (as_i64 (position - w.highest_position));
      highest_position = position;
    }
    else record w { current_position = position }

abbrev pub then_ok {ℓ} :
    {A : Type ℓ} → FileSystemWriter × IoResult (Unit {0}) → A → FileSystemWriter × IoResult A
then_ok (w, ok u) a = (w, ok a)
then_ok (w, err e) a = (w, err e)

-- `outcome` is what the file's `write` returns.
unfoldable pub write : FileSystemWriter → Option ℕ → FileSystemWriter × IoResult ℕ
unfolding allocate_accumulated advance
write w outcome = if not w.is_open then (w, err not_available) else elim outcome [
  | none ↦ (w, err inner)
  | some written ↦
      let w' = advance w written in
      if not (ltb_ℤ w'.accumulated_bytes allocation_threshold)
      then then_ok (allocate_accumulated w') written
      else (w', ok written)
]

abbrev flush_file : FileSystemWriter → Bool → FileSystemWriter × IoResult (Unit {0})
flush_file w flushed =
    if w.is_open then (w, if flushed then ok tt else err inner) else (w, err not_available)

abbrev flush_after :
    FileSystemWriter × IoResult (Unit {0}) → Bool → FileSystemWriter × IoResult (Unit {0})
flush_after (w, ok u) flushed = flush_file w flushed
flush_after (w, err e) flushed = (w, err e)

unfoldable pub flush : FileSystemWriter → Bool → FileSystemWriter × IoResult (Unit {0})
unfolding allocate_accumulated
flush w flushed = flush_after (allocate_accumulated w) flushed

abbrev seek_file : FileSystemWriter → Option ℕ → FileSystemWriter × IoResult ℕ
seek_file w none = (w, err (if w.is_open then inner else not_available))
seek_file w (some position) =
    if w.is_open
    then (record w { current_position = position }, ok position)
    else (w, err not_available)

abbrev seek_after :
    FileSystemWriter × IoResult (Unit {0}) → Option ℕ → FileSystemWriter × IoResult ℕ
seek_after (w, ok u) outcome = seek_file w outcome
seek_after (w, err e) outcome = (w, err e)

-- `outcome` is the new position that the file's `seek` returns.
unfoldable pub seek : FileSystemWriter → Option ℕ → FileSystemWriter × IoResult ℕ
unfolding allocate_accumulated
seek w outcome = seek_after (allocate_accumulated w) outcome

-- `Drop`: the file's time stamp is set, and the accounting is left as it is.
unfoldable pub drop_writer : FileSystemWriter → Filesystem
drop_writer w = w.filesystem
