-- ===== src/Writer/Async.antt =====
-- application/src/server/filesystem/writer.rs: `AsyncFileSystemWriter`. Each poll is given what the
-- file answers to it and whether the lock of the usage tree is free when the allocation is polled.
pub mod Balance
pub mod Run
pub mod Loss
mod Tests
use cyrogopus.Prelude.{
  ℕ, ◌-◌, String, Bool, true, false, List, Option, none, some, not, ◌&&◌, ltb, if◌then◌else◌,
}
use cyrogopus.Prelude.Int.{ℤ, pos, negsuc, ltb_ℤ}
use cyrogopus.Prelude.Words.{add_u64, as_i64, add_i64}
use cyrogopus.Usage.{update_size_slice}
use cyrogopus.Filesystem.{Filesystem, is_limited, over_limit, charge, async_allocate_in_path_slice}
use cyrogopus.Writer.{Error, storage_full, inner, IoResult, ok, err, allocation_threshold}

pub data Poll {ℓ} (A : Type ℓ) : Type ℓ where
  pending : Poll A
  ready : A → Poll A

-- The future of `async_allocate_in_path_slice`: `unpolled` has done nothing yet, `charged` has
-- charged the cached total and waits for the lock of the tree.
pub data Allocation : Type 0 where
  no_allocation : Allocation
  unpolled : ℤ → Allocation
  charged : ℤ → Allocation

pub record AsyncFileSystemWriter : Type 0 where
  pub filesystem : Filesystem
  pub parent : List String
  pub ignorant : Bool
  pub accumulated_bytes : ℤ  -- i64
  pub allocation_in_progress : Allocation
  pub current_position : ℕ  -- u64
  pub highest_position : ℕ  -- u64

-- `AsyncFileSystemWriter::new`, once the file is there.
unfoldable pub new : Filesystem → List String → AsyncFileSystemWriter
new fs parent = record {
  filesystem = fs;
  parent = parent;
  ignorant = false;
  accumulated_bytes = pos 0;
  allocation_in_progress = no_allocation;
  current_position = 0;
  highest_position = 0;
}

unfoldable pub ignore_limit : AsyncFileSystemWriter → AsyncFileSystemWriter
ignore_limit w = record w { ignorant = true }

abbrev pub is_idle : Allocation → Bool
is_idle no_allocation = true
is_idle _ = false

unfoldable pub start_allocation : AsyncFileSystemWriter → AsyncFileSystemWriter
start_allocation w =
    if ltb_ℤ (pos 0) w.accumulated_bytes && is_idle w.allocation_in_progress
    then record w {
      allocation_in_progress = unpolled w.accumulated_bytes;
      accumulated_bytes = pos 0;
    }
    else w

-- The future, once the cached total is charged: the tree is updated under its lock.
unfoldable pub poll_tree :
    AsyncFileSystemWriter → ℤ → Bool → AsyncFileSystemWriter × Poll (IoResult (Unit {0}))
poll_tree w bytes free =
    if free
    then (
      record w {
        filesystem = record w.filesystem {
          disk_usage = update_size_slice w.filesystem.disk_usage w.parent bytes;
        };
        allocation_in_progress = no_allocation;
      },
      ready (ok tt),
    )
    else (record w { allocation_in_progress = charged bytes }, pending)

unfoldable pub poll_future :
    AsyncFileSystemWriter → Allocation → Bool → AsyncFileSystemWriter × Poll (IoResult (Unit {0}))
unfolding poll_tree over_limit charge
poll_future w no_allocation free = (w, ready (ok tt))
poll_future w (unpolled bytes) free =
    if is_limited bytes w.ignorant && over_limit w.filesystem bytes
    then (record w { allocation_in_progress = no_allocation }, ready (err storage_full))
    else poll_tree
        (record w {
          filesystem = record w.filesystem {
            disk_usage_cached = charge w.filesystem.disk_usage_cached bytes;
          };
        })
        bytes free
poll_future w (charged bytes) free = poll_tree w bytes free

abbrev pub poll_allocation :
    AsyncFileSystemWriter → Bool → AsyncFileSystemWriter × Poll (IoResult (Unit {0}))
poll_allocation w free = poll_future w w.allocation_in_progress free

-- The match on a poll of the allocation that returns what is not `Ready(Ok)` early.
abbrev pub and_then {ℓ} :
    {A : Type ℓ}
    → AsyncFileSystemWriter × Poll (IoResult (Unit {0}))
    → (AsyncFileSystemWriter → AsyncFileSystemWriter × Poll (IoResult A))
    → AsyncFileSystemWriter × Poll (IoResult A)
and_then (w, pending) k = (w, pending)
and_then (w, ready (ok u)) k = k w
and_then (w, ready (err e)) k = (w, ready (err e))

-- The position after `written` bytes, and the bytes that this adds to the file.
unfoldable pub advance : AsyncFileSystemWriter → ℕ → AsyncFileSystemWriter
advance w written =
    let position = add_u64 w.current_position written in
    if ltb w.highest_position position
    then record w {
      current_position = position;
      accumulated_bytes = add_i64 w.accumulated_bytes (as_i64 (position - w.highest_position));
      highest_position = position;
    }
    else record w { current_position = position }

-- What follows the file's write of `written` bytes.
unfoldable pub after_write :
    AsyncFileSystemWriter → ℕ → Bool → AsyncFileSystemWriter × Poll (IoResult ℕ)
after_write w written free =
    let w' = advance w written in
    if ltb w.highest_position (add_u64 w.current_position written)
      && not (ltb_ℤ w'.accumulated_bytes allocation_threshold)
    then and_then (poll_allocation (start_allocation w') free) (λ v. (v, ready (ok written)))
    else (w', ready (ok written))

abbrev pub write_file :
    AsyncFileSystemWriter → Poll (Option ℕ) → Bool → AsyncFileSystemWriter × Poll (IoResult ℕ)
write_file w pending free = (w, pending)
write_file w (ready none) free = (w, ready (err inner))
write_file w (ready (some written)) free = after_write w written free

unfoldable pub poll_write :
    AsyncFileSystemWriter
    → Bool
    → Poll (Option ℕ)
    → Bool
    → AsyncFileSystemWriter × Poll (IoResult ℕ)
poll_write w free outcome free_after =
    and_then (poll_allocation w free) (λ v. write_file v outcome free_after)

-- The start of a flush and of a shutdown: the bytes that wait are allocated.
unfoldable pub allocate_waiting :
    AsyncFileSystemWriter → Bool → AsyncFileSystemWriter × Poll (IoResult (Unit {0}))
allocate_waiting w free =
    if ltb_ℤ (pos 0) w.accumulated_bytes
    then poll_allocation (start_allocation w) free
    else (w, ready (ok tt))

unfoldable pub settle :
    AsyncFileSystemWriter → Bool → Bool → AsyncFileSystemWriter × Poll (IoResult (Unit {0}))
settle w free free_after = and_then (poll_allocation w free) (λ v. allocate_waiting v free_after)

-- The file's own flush or shutdown.
abbrev pub finish_file : Poll Bool → Poll (IoResult (Unit {0}))
finish_file pending = pending
finish_file (ready true) = ready (ok tt)
finish_file (ready false) = ready (err inner)

unfoldable pub poll_flush :
    AsyncFileSystemWriter
    → Bool
    → Bool
    → Poll Bool
    → AsyncFileSystemWriter × Poll (IoResult (Unit {0}))
poll_flush w free free_after outcome =
    and_then (settle w free free_after) (λ v. (v, finish_file outcome))

unfoldable pub poll_shutdown :
    AsyncFileSystemWriter
    → Bool
    → Bool
    → Poll Bool
    → AsyncFileSystemWriter × Poll (IoResult (Unit {0}))
poll_shutdown w free free_after outcome =
    and_then (settle w free free_after) (λ v. (v, finish_file outcome))

-- The file's own start of a seek returns what it returns.
unfoldable pub start_seek : AsyncFileSystemWriter → AsyncFileSystemWriter
start_seek w = if ltb_ℤ (pos 0) w.accumulated_bytes then start_allocation w else w

abbrev pub complete_file :
    AsyncFileSystemWriter → Poll (Option ℕ) → AsyncFileSystemWriter × Poll (IoResult ℕ)
complete_file w pending = (w, pending)
complete_file w (ready none) = (w, ready (err inner))
complete_file w (ready (some position)) =
    (record w { current_position = position }, ready (ok position))

unfoldable pub poll_complete :
    AsyncFileSystemWriter → Bool → Poll (Option ℕ) → AsyncFileSystemWriter × Poll (IoResult ℕ)
poll_complete w free outcome = and_then (poll_allocation w free) (λ v. complete_file v outcome)

-- `Drop`, with the task that it spawns: the bytes that wait are allocated, and an allocation in
-- progress is dropped as it stands.
unfoldable pub drop_writer : AsyncFileSystemWriter → Filesystem
drop_writer w =
    if ltb_ℤ (pos 0) w.accumulated_bytes
    then (async_allocate_in_path_slice w.filesystem w.parent w.accumulated_bytes w.ignorant).0
    else w.filesystem
