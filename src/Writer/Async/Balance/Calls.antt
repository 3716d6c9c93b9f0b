-- ===== src/Writer/Async/Balance/Calls.antt =====
-- application/src/server/filesystem/writer.rs: the calls of an `AsyncFileSystemWriter`, one by one.
use cyrogopus.Prelude.{
  ℕ, ◌+◌, ◌<◌, ◌^◌, Bool, false, Option, none, some, ◌≡◌, inl, inr, arith, Bool-cases, ltb, ◌&&◌,
  not,
}
use cyrogopus.Prelude.Int.{pos, ltb_ℤ}
use cyrogopus.Prelude.Words.{add_u64}
use cyrogopus.Writer.{ok, allocation_threshold}
use cyrogopus.Writer.Async.{
  Poll, pending, ready, AsyncFileSystemWriter, start_allocation, poll_allocation, advance,
  after_write, write_file, poll_write, allocate_waiting, settle, finish_file, poll_flush,
  start_seek, complete_file, poll_complete,
}
use cyrogopus.Writer.Async.Balance.{
  is_refused, written, Tracks, Tracks-start_allocation, Tracks-poll_allocation, Tracks-later,
  Tracks-and_then, Tracks-advance, Tracks-start_and_poll, Tracks-before,
}

module _ (start : ℕ) where
  Tracks-after_write :
      (t n : ℕ) (w : AsyncFileSystemWriter) (free : Bool)
      → start + t + n < 2 ^ 61
      → Tracks start t w
      → is_refused (after_write w n free).1 ≡ false
      → Tracks start (t + n) (after_write w n free).0
  unfolding after_write
  Tracks-after_write t n w free b k r =
      let step = Tracks-advance start t n w b k in
      elim (Bool-cases (
        ltb w.highest_position (add_u64 w.current_position n)
        && not (ltb_ℤ (advance w n).accumulated_bytes allocation_threshold))) [
          | inl h ↦ rw h (
              Tracks-before start (t + n) (poll_allocation (start_allocation (advance w n)) free)
                (λ v. (v, ready (ok n)))
                (Tracks-start_and_poll start (t + n) (advance w n) free (omega arith) step)
                (λ v kv rv. kv) (ground arith))
          | inr h ↦ rw h step
        ]

  Tracks-write_file :
      (t : ℕ) (w : AsyncFileSystemWriter) (outcome : Poll (Option ℕ)) (free : Bool)
      → start + t + written outcome < 2 ^ 61
      → Tracks start t w
      → is_refused (write_file w outcome free).1 ≡ false
      → Tracks start (t + written outcome) (write_file w outcome free).0
  Tracks-write_file t w pending free b k r = Tracks-later start t 0 w k
  Tracks-write_file t w (ready none) free b k r = Tracks-later start t 0 w k
  Tracks-write_file t w (ready (some n)) free b k r = Tracks-after_write t n w free b k r

  pub Tracks-poll_write :
      (t : ℕ) (w : AsyncFileSystemWriter) (free : Bool) (outcome : Poll (Option ℕ)) (free' : Bool)
      → start + t + written outcome < 2 ^ 61
      → Tracks start t w
      → is_refused (poll_write w free outcome free').1 ≡ false
      → Tracks start (t + written outcome) (poll_write w free outcome free').0
  unfolding poll_write
  Tracks-poll_write t w free outcome free' b k r =
      Tracks-and_then start t (written outcome) (poll_allocation w free)
        (λ v. write_file v outcome free') (Tracks-poll_allocation start t w free (omega arith) k)
        (λ v kv rv. Tracks-write_file t v outcome free' b kv rv) r

  Tracks-allocate_waiting :
      (t : ℕ) (w : AsyncFileSystemWriter) (free : Bool)
      → start + t < 2 ^ 61
      → Tracks start t w
      → is_refused (allocate_waiting w free).1 ≡ false
      → Tracks start t (allocate_waiting w free).0
  unfolding allocate_waiting
  Tracks-allocate_waiting t w free b k r = elim (Bool-cases (ltb_ℤ (pos 0) w.accumulated_bytes)) [
    | inl h ↦ rw h (Tracks-start_and_poll start t w free b k (ground arith))
    | inr h ↦ rw h k
  ]

  pub Tracks-settle :
      (t : ℕ) (w : AsyncFileSystemWriter) (free free' : Bool)
      → start + t < 2 ^ 61
      → Tracks start t w
      → is_refused (settle w free free').1 ≡ false
      → Tracks start t (settle w free free').0
  unfolding settle
  Tracks-settle t w free free' b k r =
      Tracks-before start t (poll_allocation w free) (λ v. allocate_waiting v free')
        (Tracks-poll_allocation start t w free b k)
        (λ v kv rv. Tracks-allocate_waiting t v free' b kv rv) r

  pub Tracks-poll_flush :
      (t : ℕ) (w : AsyncFileSystemWriter) (free free' : Bool) (outcome : Poll Bool)
      → start + t < 2 ^ 61
      → Tracks start t w
      → is_refused (poll_flush w free free' outcome).1 ≡ false
      → Tracks start t (poll_flush w free free' outcome).0
  unfolding poll_flush
  Tracks-poll_flush t w free free' outcome b k r =
      Tracks-before start t (settle w free free') (λ v. (v, finish_file outcome))
        (Tracks-settle t w free free' b k) (λ v kv rv. kv) r

  pub Tracks-start_seek :
      (t : ℕ) (w : AsyncFileSystemWriter) → Tracks start t w → Tracks start t (start_seek w)
  unfolding start_seek
  Tracks-start_seek t w k = elim (Bool-cases (ltb_ℤ (pos 0) w.accumulated_bytes)) [
    | inl h ↦ rw h (Tracks-start_allocation start t w k)
    | inr h ↦ rw h k
  ]

  Tracks-complete_file :
      (t : ℕ) (w : AsyncFileSystemWriter) (outcome : Poll (Option ℕ))
      → Tracks start t w
      → Tracks start (t + written outcome) (complete_file w outcome).0
  Tracks-complete_file t w pending k = Tracks-later start t 0 w k
  Tracks-complete_file t w (ready none) k = Tracks-later start t 0 w k
  Tracks-complete_file t w (ready (some p)) k = omega arith

  pub Tracks-poll_complete :
      (t : ℕ) (w : AsyncFileSystemWriter) (free : Bool) (outcome : Poll (Option ℕ))
      → start + t + written outcome < 2 ^ 61
      → Tracks start t w
      → is_refused (poll_complete w free outcome).1 ≡ false
      → Tracks start (t + written outcome) (poll_complete w free outcome).0
  unfolding poll_complete
  Tracks-poll_complete t w free outcome b k r =
      Tracks-and_then start t (written outcome) (poll_allocation w free)
        (λ v. complete_file v outcome) (Tracks-poll_allocation start t w free (omega arith) k)
        (λ v kv rv. Tracks-complete_file t v outcome kv) r
