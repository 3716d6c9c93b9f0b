-- ===== src/Writer/Run.antt =====
-- application/src/server/filesystem/writer.rs: whole lives of a writer, of any calls, with any
-- outcomes of the file.
use cyrogopus.Prelude.{
  ℕ, ◌+◌, ◌*◌, ◌<◌, ◌≤◌, ◌^◌, Bool, Option, none, some, ◌≡◌, arith, List, [], ◌∷◌, String,
  unwrap_or,
}
use cyrogopus.Prelude.Int.{pos_part, neg_part}
use cyrogopus.Filesystem.{Filesystem}
use cyrogopus.Writer.{
  FileSystemWriter, IoResult, err, allocate_accumulated, advance, new, drop_writer,
}
use cyrogopus.Writer
use cyrogopus.Writer.Accounting.{
  IsValid, Conserves, write-Conserves, seek-Conserves, flush-Conserves,
}

pub data Call : Type 0 where
  write : Option ℕ → Call
  flush : Bool → Call
  seek : Option ℕ → Call

unfoldable pub step : FileSystemWriter → Call → FileSystemWriter
step w (write outcome) = (Writer.write w outcome).0
step w (flush flushed) = (Writer.flush w flushed).0
step w (seek outcome) = (Writer.seek w outcome).0

unfoldable pub run : FileSystemWriter → List Call → FileSystemWriter
run w [] = w
run w (c ∷ cs) = run (step w c) cs

-- What a call can move the position by, or to.
abbrev pub reach : Call → ℕ
reach (write outcome) = unwrap_or outcome 0
reach (flush flushed) = 0
reach (seek outcome) = unwrap_or outcome 0

abbrev pub total : List Call → ℕ
total [] = 0
total (c ∷ cs) = reach c + total cs

-- The balance of a writer that began on a filesystem with `start` bytes in use, `t` bytes later.
pub record Tracks (start t : ℕ) (w : FileSystemWriter) : Type 0 where
  pub no_debt : neg_part w.accumulated_bytes ≡ 0
  pub position : w.current_position ≤ t
  pub highest : w.highest_position ≤ t
  pub balance :
      w.filesystem.disk_usage_cached + pos_part w.accumulated_bytes ≡ start + w.highest_position

Tracks-IsValid :
    (start t : ℕ) (w : FileSystemWriter) → start + t < 2 ^ 61 → Tracks start t w → IsValid w
Tracks-IsValid start t w b k = omega arith

step-position :
    (start t : ℕ) (w : FileSystemWriter) (c : Call)
    → start + t + reach c < 2 ^ 61
    → Tracks start t w
    → ((step w c).current_position ≤ t + reach c) × ((step w c).highest_position ≤ t + reach c)
unfolding step Writer.write Writer.flush Writer.seek allocate_accumulated advance
step-position start t w (write none) b k = ground arith
step-position start t w (write (some n)) b k = ground arith
step-position start t w (flush f) b k = ground arith
step-position start t w (seek none) b k = ground arith
step-position start t w (seek (some p)) b k = ground arith

step-Conserves :
    (w : FileSystemWriter) (c : Call) → IsValid w → reach c < 2 ^ 61 → Conserves w (step w c)
unfolding step
step-Conserves w (write outcome) v h = write-Conserves w outcome v h
step-Conserves w (flush flushed) v h = flush-Conserves w flushed v
step-Conserves w (seek outcome) v h = seek-Conserves w outcome v

step-Tracks :
    (start t : ℕ) (w : FileSystemWriter) (c : Call)
    → start + t + reach c < 2 ^ 61
    → Tracks start t w
    → Tracks start (t + reach c) (step w c)
step-Tracks start t w c b k = omega (
  arith,
  step-position start t w c b k,
  step-Conserves w c (Tracks-IsValid start t w (omega arith) k) (omega arith),
)

pub run-Tracks :
    (start t : ℕ) (w : FileSystemWriter) (cs : List Call)
    → start + t + total cs < 2 ^ 61
    → Tracks start t w
    → Tracks start (t + total cs) (run w cs)
unfolding run
run-Tracks start t w [] b k = omega arith
run-Tracks start t w (c ∷ cs) b k = omega (
  arith,
  run-Tracks start (t + reach c) (step w c) cs (omega arith)
      (step-Tracks start t w c (omega arith) k),
)

-- A new writer that is dropped after a write of n bytes, less than the threshold, leaves the usage
-- as it was before, though the file has grown by n bytes.
drop-uncharged :
    (fs : Filesystem) (parent : List String) (n : ℕ)
    → n < 1024 * 1024
    → ((step (new fs parent) (write (some n))).highest_position ≡ n)
      × (drop_writer (step (new fs parent) (write (some n))) ≡ fs)
unfolding step Writer.write advance new drop_writer
drop-uncharged fs parent n h = ground arith
