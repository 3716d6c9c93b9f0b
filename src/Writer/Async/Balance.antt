-- ===== src/Writer/Async/Balance.antt =====
-- application/src/server/filesystem/writer.rs: what each poll of an `AsyncFileSystemWriter` does to
-- the balance of charged and waiting bytes, as long as the disk limit does not refuse one.
pub mod Calls
use cyrogopus.Prelude.{
  ℕ, ◌+◌, ◌<◌, ◌≤◌, ◌^◌, Bool, true, false, Option, none, some, ◌≡◌, inl, inr, refl, arith, ap,
  Bool-cases, ltb, ◌&&◌, not,
}
use cyrogopus.Prelude.Int.{ℤ, pos, negsuc, pos_part, neg_part, ltb_ℤ}
use cyrogopus.Prelude.Words.{add_u64}
use cyrogopus.Filesystem.{charge, over_limit, is_limited}
use cyrogopus.Writer.{storage_full, not_available, inner, IoResult, ok, err, allocation_threshold}
use cyrogopus.Writer.Async.{
  Poll, pending, ready, Allocation, no_allocation, unpolled, charged, AsyncFileSystemWriter,
  start_allocation, poll_tree, poll_future, poll_allocation, and_then, advance, after_write,
  write_file, poll_write, allocate_waiting, settle, finish_file, poll_flush, start_seek,
  complete_file, poll_complete,
}

abbrev pub is_refused {ℓ} : {A : Type ℓ} → Poll (IoResult A) → Bool
is_refused (ready (err storage_full)) = true
is_refused _ = false

-- What a poll of the file moves the position by, or to.
abbrev pub written : Poll (Option ℕ) → ℕ
written (ready (some n)) = n
written _ = 0

-- The bytes of an allocation that has not charged them yet.
abbrev pub unstarted : Allocation → ℤ
unstarted (unpolled b) = b
unstarted _ = pos 0

-- The balance of a writer that began on a filesystem with `start` bytes in use, `t` bytes later.
pub record Tracks (start t : ℕ) (w : AsyncFileSystemWriter) : Type 0 where
  pub no_debt : neg_part w.accumulated_bytes ≡ 0
  pub no_unstarted_debt : neg_part (unstarted w.allocation_in_progress) ≡ 0
  pub position : w.current_position ≤ t
  pub highest : w.highest_position ≤ t
  pub balance :
      w.filesystem.disk_usage_cached
        + pos_part (unstarted w.allocation_in_progress)
        + pos_part w.accumulated_bytes
      ≡ start + w.highest_position

module _ (start : ℕ) where
  pub Tracks-start_allocation :
      (t : ℕ) (w : AsyncFileSystemWriter) → Tracks start t w → Tracks start t (start_allocation w)
  unfolding start_allocation
  Tracks-start_allocation t w k = ground arith

  Tracks-poll_tree :
      (t : ℕ) (w : AsyncFileSystemWriter) (bytes : ℤ) (free : Bool)
      → neg_part w.accumulated_bytes ≡ 0
      → w.current_position ≤ t
      → w.highest_position ≤ t
      → w.filesystem.disk_usage_cached + pos_part w.accumulated_bytes ≡ start + w.highest_position
      → Tracks start t (poll_tree w bytes free).0
  unfolding poll_tree
  Tracks-poll_tree t w bytes free d p h e = ground arith

  Tracks-charged :
      (t : ℕ) (w : AsyncFileSystemWriter) (bytes : ℤ) (free : Bool)
      → start + t < 2 ^ 61
      → w.allocation_in_progress ≡ unpolled bytes
      → Tracks start t w
      → Tracks start t
          (poll_tree
            (record w {
              filesystem = record w.filesystem {
                disk_usage_cached = charge w.filesystem.disk_usage_cached bytes;
              };
            })
            bytes
            free).0
  unfolding charge
  Tracks-charged t w (pos n) free b e k =
      let same = ap (λ a. pos_part (unstarted a)) e in
      Tracks-poll_tree t _ (pos n) free k.no_debt k.position k.highest (ground (arith, same))
  Tracks-charged t w (negsuc n) free b e k =
      let same = ap (λ a. neg_part (unstarted a)) e in ground (arith, same)

  Tracks-poll_future :
      (t : ℕ) (w : AsyncFileSystemWriter) (a : Allocation) (free : Bool)
      → start + t < 2 ^ 61
      → w.allocation_in_progress ≡ a
      → Tracks start t w
      → is_refused (poll_future w a free).1 ≡ false
      → Tracks start t (poll_future w a free).0
  unfolding poll_future
  Tracks-poll_future t w no_allocation free b e k r = k
  Tracks-poll_future t w (unpolled bytes) free b e k r =
      elim (Bool-cases (is_limited bytes w.ignorant && over_limit w.filesystem bytes)) [
        | inl h ↦ ground arith
        | inr h ↦ rw h (Tracks-charged t w bytes free b e k)
      ]
  Tracks-poll_future t w (charged bytes) free b e k r =
      let same = ap (λ a. pos_part (unstarted a)) e in
      Tracks-poll_tree t w bytes free k.no_debt k.position k.highest
        (omega (arith, same, k.balance))

  pub Tracks-poll_allocation :
      (t : ℕ) (w : AsyncFileSystemWriter) (free : Bool)
      → start + t < 2 ^ 61
      → Tracks start t w
      → is_refused (poll_allocation w free).1 ≡ false
      → Tracks start t (poll_allocation w free).0
  Tracks-poll_allocation t w free b k r =
      Tracks-poll_future t w w.allocation_in_progress free b refl k r

  pub Tracks-later :
      (t n : ℕ) (w : AsyncFileSystemWriter) → Tracks start t w → Tracks start (t + n) w
  Tracks-later t n w k = omega arith

  pub Tracks-and_then {ℓ} :
      {A : Type ℓ} (t n : ℕ) (r : AsyncFileSystemWriter × Poll (IoResult (Unit {0})))
      (k : AsyncFileSystemWriter → AsyncFileSystemWriter × Poll (IoResult A))
      → (is_refused r.1 ≡ false → Tracks start t r.0)
      → ((v : AsyncFileSystemWriter)
          → Tracks start t v
          → is_refused (k v).1 ≡ false
          → Tracks start (t + n) (k v).0)
      → is_refused (and_then r k).1 ≡ false
      → Tracks start (t + n) (and_then r k).0
  Tracks-and_then t n (w, pending) k f g h = Tracks-later t n w (f refl)
  Tracks-and_then t n (w, ready (ok u)) k f g h = g w (f refl) h
  Tracks-and_then t n (w, ready (err storage_full)) k f g h = ground arith
  Tracks-and_then t n (w, ready (err not_available)) k f g h = Tracks-later t n w (f refl)
  Tracks-and_then t n (w, ready (err inner)) k f g h = Tracks-later t n w (f refl)

  pub Tracks-advance :
      (t n : ℕ) (w : AsyncFileSystemWriter)
      → start + t + n < 2 ^ 61
      → Tracks start t w
      → Tracks start (t + n) (advance w n)
  unfolding advance
  Tracks-advance t n w b k = ground arith

  pub Tracks-start_and_poll :
      (t : ℕ) (w : AsyncFileSystemWriter) (free : Bool)
      → start + t < 2 ^ 61
      → Tracks start t w
      → is_refused (poll_allocation (start_allocation w) free).1 ≡ false
      → Tracks start t (poll_allocation (start_allocation w) free).0
  Tracks-start_and_poll t w free b k r =
      Tracks-poll_allocation t (start_allocation w) free b (Tracks-start_allocation t w k) r

  Tracks-same : (t : ℕ) (w : AsyncFileSystemWriter) → Tracks start (t + 0) w → Tracks start t w
  Tracks-same t w k = omega arith

  -- A poll of the allocation before a step that moves no position.
  pub Tracks-before {ℓ} :
      {A : Type ℓ} (t : ℕ) (r : AsyncFileSystemWriter × Poll (IoResult (Unit {0})))
      (k : AsyncFileSystemWriter → AsyncFileSystemWriter × Poll (IoResult A))
      → (is_refused r.1 ≡ false → Tracks start t r.0)
      → ((v : AsyncFileSystemWriter)
          → Tracks start t v
          → is_refused (k v).1 ≡ false
          → Tracks start t (k v).0)
      → is_refused (and_then r k).1 ≡ false
      → Tracks start t (and_then r k).0
  Tracks-before t r k f g h =
      Tracks-same t (and_then r k).0
        (Tracks-and_then t 0 r k f (λ v kv rv. Tracks-later t 0 (k v).0 (g v kv rv)) h)
