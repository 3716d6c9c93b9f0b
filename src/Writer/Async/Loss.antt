-- ===== src/Writer/Async/Loss.antt =====
-- application/src/server/filesystem/writer.rs: what a refused or a delayed allocation does to a
-- poll of the write that started it.
use cyrogopus.Prelude.{
  ℕ, ◌+◌, ◌*◌, ◌-◌, ltb, ◌<◌, ◌≤◌, ◌^◌, Bool, true, false, some, List, String, ◌≡◌, refl, ap, ◌∙◌,
  arith,
}
use cyrogopus.Prelude.Int.{ℤ, pos, ltb_ℤ}
use cyrogopus.Prelude.Words.{add_u64, add_i64, as_i64, add_i64-pos, as_i64-pos}
use cyrogopus.Filesystem.{Filesystem, is_limited, over_limit, charge}
use cyrogopus.Writer.{IoResult, ok, err, storage_full, allocation_threshold}
use cyrogopus.Writer.Async.{
  Poll, pending, ready, Allocation, no_allocation, unpolled, charged, AsyncFileSystemWriter, new,
  start_allocation, poll_tree, poll_future, poll_allocation, and_then, after_write, advance,
  allocate_waiting, settle, poll_write, poll_shutdown,
}

add_u64_zero : (n : ℕ) → n < 2 ^ 64 → add_u64 0 n ≡ n
add_u64_zero n h = ground arith

ltb_zero : (n : ℕ) → 0 < n → ltb 0 n ≡ true
ltb_zero n h = ground arith

waiting_bytes : (n : ℕ) → n < 2 ^ 61 → add_i64 (pos 0) (as_i64 (n - 0)) ≡ pos n
waiting_bytes n h =
    rw (as_i64-pos (n - 0) (omega arith))
      (add_i64-pos 0 (n - 0) (omega arith) ∙ ap pos (omega arith))

over_threshold : (n : ℕ) → 1024 * 1024 ≤ n → ltb_ℤ (pos n) allocation_threshold ≡ false
over_threshold n h = ground arith

-- The writer of a file of `n` bytes that has nothing waiting.
abbrev settled_at : Filesystem → List String → ℕ → AsyncFileSystemWriter
settled_at fs parent n = record (new fs parent) { current_position = n; highest_position = n }

-- A file's first `n` bytes, before they are charged.
abbrev waiting_at : Filesystem → List String → ℕ → AsyncFileSystemWriter
waiting_at fs parent n = record (settled_at fs parent n) { accumulated_bytes = pos n }

advance-new :
    (fs : Filesystem) (parent : List String) (n : ℕ)
    → 0 < n
    → n < 2 ^ 61
    → advance (new fs parent) n ≡ waiting_at fs parent n
unfolding advance new
advance-new fs parent n h b = rw (add_u64_zero n (omega (arith, b))) (
    rw (ltb_zero n h)
      (ap (λ a. record (settled_at fs parent n) { accumulated_bytes = a }) (waiting_bytes n b)))

poll_write-full :
    (fs : Filesystem) (parent : List String) (n : ℕ) (free free' : Bool)
    → 1024 * 1024 ≤ n
    → n < 2 ^ 61
    → poll_write (new fs parent) free (ready (some n)) free'
      ≡ and_then
          (poll_allocation (start_allocation (waiting_at fs parent n)) free')
          (λ v. (v, ready (ok n)))
unfolding poll_write after_write poll_future new
poll_write-full fs parent n free free' h b = rw (advance-new fs parent n (omega arith) b) (
    rw (add_u64_zero n (omega arith))
      (rw (ltb_zero n (omega arith)) (rw (over_threshold n h) refl)))

-- The same with its bytes in an allocation.
abbrev allocating_at : Filesystem → List String → ℕ → AsyncFileSystemWriter
allocating_at fs parent n = record (settled_at fs parent n) {
  allocation_in_progress = unpolled (pos n);
}

positive : (n : ℕ) → 0 < n → ltb_ℤ (pos 0) (pos n) ≡ true
positive n h = ground arith

start_allocation-waiting :
    (fs : Filesystem) (parent : List String) (n : ℕ)
    → 0 < n
    → start_allocation (waiting_at fs parent n) ≡ allocating_at fs parent n
unfolding start_allocation new
start_allocation-waiting fs parent n h = rw (positive n h) refl

poll_future-refused :
    (w : AsyncFileSystemWriter) (bytes : ℤ) (free : Bool)
    → is_limited bytes w.ignorant ≡ true
    → over_limit w.filesystem bytes ≡ true
    → poll_future w (unpolled bytes) free
      ≡ (record w { allocation_in_progress = no_allocation }, ready (err storage_full))
unfolding poll_future
poll_future-refused w bytes free l o = rw l (rw o refl)

-- The cached total charged, the tree not yet.
abbrev charged_at : Filesystem → List String → ℕ → AsyncFileSystemWriter
charged_at fs parent n = record (settled_at fs parent n) {
  filesystem = record fs { disk_usage_cached = charge fs.disk_usage_cached (pos n) };
  allocation_in_progress = charged (pos n);
}

poll_future-waits :
    (fs : Filesystem) (parent : List String) (n : ℕ)
    → over_limit fs (pos n) ≡ false
    → poll_future (allocating_at fs parent n) (unpolled (pos n)) false
      ≡ (charged_at fs parent n, pending)
unfolding poll_future poll_tree new
poll_future-waits fs parent n o = rw o refl

poll_write-refused :
    (fs : Filesystem) (parent : List String) (n : ℕ) (free free' : Bool)
    → 1024 * 1024 ≤ n
    → n < 2 ^ 61
    → over_limit fs (pos n) ≡ true
    → poll_write (new fs parent) free (ready (some n)) free'
      ≡ (settled_at fs parent n, ready (err storage_full))
unfolding new
poll_write-refused fs parent n free free' h b o = rw (poll_write-full fs parent n free free' h b) (
    rw (start_allocation-waiting fs parent n (omega arith))
      (rw (poll_future-refused (allocating_at fs parent n) (pos n) free' refl o) refl))

poll_write-waits :
    (fs : Filesystem) (parent : List String) (n : ℕ) (free : Bool)
    → 1024 * 1024 ≤ n
    → n < 2 ^ 61
    → over_limit fs (pos n) ≡ false
    → poll_write (new fs parent) free (ready (some n)) false ≡ (charged_at fs parent n, pending)
unfolding new
poll_write-waits fs parent n free h b o = rw (poll_write-full fs parent n free false h b) (
    rw (start_allocation-waiting fs parent n (omega arith))
      (rw (poll_future-waits fs parent n o) refl))

highest-poll_future :
    (w : AsyncFileSystemWriter) (a : Allocation) (free : Bool)
    → (poll_future w a free).0.highest_position ≡ w.highest_position
unfolding poll_future poll_tree
highest-poll_future w no_allocation free = refl
highest-poll_future w (unpolled b) free = ground arith
highest-poll_future w (charged b) free = ground arith

highest-start_allocation :
    (w : AsyncFileSystemWriter) → (start_allocation w).highest_position ≡ w.highest_position
unfolding start_allocation
highest-start_allocation w = ground arith

highest-and_then :
    (r : AsyncFileSystemWriter × Poll (IoResult (Unit {0}))) (n : ℕ)
    → (and_then r (λ v. (v, ready (ok n)))).0.highest_position ≡ r.0.highest_position
highest-and_then (w, pending) n = refl
highest-and_then (w, ready (ok u)) n = refl
highest-and_then (w, ready (err e)) n = refl

highest-after_write :
    (w : AsyncFileSystemWriter) (n : ℕ) (free : Bool)
    → (after_write w n free).0.highest_position ≡ (advance w n).highest_position
unfolding after_write
highest-after_write w n free = ground (
  arith,
  highest-and_then (poll_allocation (start_allocation (advance w n)) free) n,
  highest-poll_future (start_allocation (advance w n))
      (start_allocation (advance w n)).allocation_in_progress free,
  highest-start_allocation (advance w n),
)

highest-advance :
    (w : AsyncFileSystemWriter) (n : ℕ)
    → w.current_position ≡ w.highest_position
    → w.highest_position + n < 2 ^ 64
    → (advance w n).highest_position ≡ w.highest_position + n
unfolding advance
highest-advance w n e h = ground arith

-- A first write of 1 MiB or more that the disk limit refuses has been made all the same, and its bytes are never charged: the write
-- fails with StorageFull and leaves the file `n` bytes long, and a shutdown after it is ready at
-- once with the filesystem's accounting as it was before.
poll_write-forgets :
    (fs : Filesystem) (parent : List String) (n : ℕ) (free free' : Bool)
    → 1024 * 1024 ≤ n
    → n < 2 ^ 61
    → over_limit fs (pos n) ≡ true
    → let r = poll_write (new fs parent) free (ready (some n)) free' in
      (r.1 ≡ ready (err storage_full))
      × (r.0.highest_position ≡ n)
      × ((poll_shutdown r.0 free free' (ready true)).1 ≡ ready (ok tt))
      × ((poll_shutdown r.0 free free' (ready true)).0.filesystem ≡ fs)
unfolding poll_shutdown settle allocate_waiting poll_future new
poll_write-forgets fs parent n free free' h b o =
    rw (poll_write-refused fs parent n free free' h b o) (refl, refl, refl, refl)

-- A first write of 1 MiB or more that the disk limit allows is pending when the lock of the usage
-- tree is taken, though the file has taken its bytes: the caller that polls again with the same
-- bytes, as a pending write asks, writes them a second time.
poll_write-twice :
    (fs : Filesystem) (parent : List String) (n : ℕ) (free : Bool)
    → 1024 * 1024 ≤ n
    → n < 2 ^ 61
    → over_limit fs (pos n) ≡ false
    → let first = poll_write (new fs parent) free (ready (some n)) false in
      (first.1 ≡ pending)
      × (first.0.highest_position ≡ n)
      × ((poll_write first.0 true (ready (some n)) true).0.highest_position ≡ n + n)
unfolding poll_write poll_future poll_tree new
poll_write-twice fs parent n free h b o =
    rw (poll_write-waits fs parent n free h b o)
      (refl, refl, highest-after_write _ n true ∙ highest-advance _ n refl (omega arith))
