-- ===== src/Writer/Async/Run.antt =====
-- application/src/server/filesystem/writer.rs: whole lives of an `AsyncFileSystemWriter`, of any
-- polls in any order, with any answers of the file and of the lock.
use cyrogopus.Prelude.{ℕ, ◌+◌, Bool, true, false, ◌||◌, Option, List, [], ◌∷◌, ◌≡◌}
use cyrogopus.Prelude.Int.{pos_part}
use cyrogopus.Filesystem.{Filesystem}
use cyrogopus.Writer.{IoResult, ok}
use cyrogopus.Writer.Async.{Poll, ready, no_allocation, AsyncFileSystemWriter}
use cyrogopus.Writer.Async
use cyrogopus.Writer.Async.Balance.{is_refused, written}

-- A call, with the answers that its polls get; a shutdown acts as a flush.
pub data Call : Type 0 where
  poll_write : Bool → Poll (Option ℕ) → Bool → Call
  poll_flush : Bool → Bool → Poll Bool → Call
  start_seek : Call
  poll_complete : Bool → Poll (Option ℕ) → Call

abbrev pub step : AsyncFileSystemWriter → Call → AsyncFileSystemWriter
step w (poll_write free outcome free') = (Async.poll_write w free outcome free').0
step w (poll_flush free free' outcome) = (Async.poll_flush w free free' outcome).0
step w start_seek = Async.start_seek w
step w (poll_complete free outcome) = (Async.poll_complete w free outcome).0

abbrev pub refuses : AsyncFileSystemWriter → Call → Bool
refuses w (poll_write free outcome free') = is_refused (Async.poll_write w free outcome free').1
refuses w (poll_flush free free' outcome) = is_refused (Async.poll_flush w free free' outcome).1
refuses w start_seek = false
refuses w (poll_complete free outcome) = is_refused (Async.poll_complete w free outcome).1

abbrev pub run : AsyncFileSystemWriter → List Call → AsyncFileSystemWriter
run w [] = w
run w (c ∷ cs) = run (step w c) cs

-- Whether the disk limit refuses a charge on the way.
abbrev pub any_refused : AsyncFileSystemWriter → List Call → Bool
any_refused w [] = false
any_refused w (c ∷ cs) = refuses w c || any_refused (step w c) cs

-- What a call can move the position by, or to.
abbrev pub reach : Call → ℕ
reach (poll_write free outcome free') = written outcome
reach (poll_flush free free' outcome) = 0
reach start_seek = 0
reach (poll_complete free outcome) = written outcome

abbrev pub total : List Call → ℕ
total [] = 0
total (c ∷ cs) = reach c + total cs

abbrev is_done {ℓ} : {A : Type ℓ} → Poll (IoResult A) → Bool
is_done (ready (ok a)) = true
is_done _ = false

-- No byte of the file waits to be charged.
abbrev IsSettled : AsyncFileSystemWriter → Type 0
IsSettled w = (w.allocation_in_progress ≡ no_allocation) × (pos_part w.accumulated_bytes ≡ 0)
