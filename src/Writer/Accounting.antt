-- ===== src/Writer/Accounting.antt =====
-- application/src/server/filesystem/writer.rs: the balance of the bytes charged and the bytes that
-- wait, call by call.
use cyrogopus.Prelude.{
  ℕ, ◌+◌, ◌<◌, ◌^◌, Bool, true, false, Option, none, some, ◌≡◌, ◌⊎◌, arith, List, String, unwrap_or,
}
use cyrogopus.Prelude.Int.{pos, pos_part, neg_part}
use cyrogopus.Filesystem.{Filesystem, allocate_in_path_slice, charge}
use cyrogopus.Writer.{FileSystemWriter, ok, allocate_accumulated, advance, write, flush, seek}

-- The waiting bytes are no negative number, and no counter comes near its width's end.
pub record IsValid (w : FileSystemWriter) : Type 0 where
  pub no_debt : neg_part w.accumulated_bytes ≡ 0
  pub cached_small : w.filesystem.disk_usage_cached < 2 ^ 61
  pub waiting_small : pos_part w.accumulated_bytes < 2 ^ 61
  pub position_small : w.current_position < 2 ^ 61
  pub highest_small : w.highest_position < 2 ^ 61

-- What is charged and what waits grow together by what the highest position grows by.
pub record Conserves (w w' : FileSystemWriter) : Type 0 where
  pub no_debt : neg_part w'.accumulated_bytes ≡ 0
  pub balance :
      w'.filesystem.disk_usage_cached + pos_part w'.accumulated_bytes + w.highest_position
      ≡ w.filesystem.disk_usage_cached + pos_part w.accumulated_bytes + w'.highest_position

-- The charge of an allocation that succeeds.
allocate-cached :
    (fs : Filesystem) (path : List String) (n : ℕ) (ignorant : Bool)
    → fs.disk_usage_cached + n < 2 ^ 64
    → ((allocate_in_path_slice fs path (pos n) ignorant).1 ≡ true)
        × ((allocate_in_path_slice fs path (pos n) ignorant).0.disk_usage_cached
            ≡ fs.disk_usage_cached + n)
      ⊎ ((allocate_in_path_slice fs path (pos n) ignorant).1 ≡ false)
        × ((allocate_in_path_slice fs path (pos n) ignorant).0.disk_usage_cached
            ≡ fs.disk_usage_cached)
unfolding allocate_in_path_slice charge
allocate-cached fs path n ignorant h = ground arith

allocate_accumulated-Conserves :
    (w : FileSystemWriter)
    → neg_part w.accumulated_bytes ≡ 0
    → w.filesystem.disk_usage_cached + pos_part w.accumulated_bytes < 2 ^ 64
    → Conserves w (allocate_accumulated w).0
unfolding allocate_accumulated
allocate_accumulated-Conserves w h b =
    ground (arith, allocate-cached w.filesystem w.parent (pos_part w.accumulated_bytes) w.ignorant)

-- The positions are no matter of the allocation.
highest-allocate_accumulated :
    (w : FileSystemWriter) → (allocate_accumulated w).0.highest_position ≡ w.highest_position
unfolding allocate_accumulated
highest-allocate_accumulated w = ground arith

advance-Conserves :
    (w : FileSystemWriter) (n : ℕ) → IsValid w → n < 2 ^ 61 → Conserves w (advance w n)
unfolding advance
advance-Conserves w n v h = ground arith

advance-fits :
    (w : FileSystemWriter) (n : ℕ)
    → IsValid w
    → n < 2 ^ 61
    → (advance w n).filesystem.disk_usage_cached + pos_part (advance w n).accumulated_bytes < 2 ^ 64
unfolding advance
advance-fits w n v h = ground arith

Conserves-trans : (u v w : FileSystemWriter) → Conserves u v → Conserves v w → Conserves u w
Conserves-trans u v w f g = omega arith

Conserves-refl : (w : FileSystemWriter) → neg_part w.accumulated_bytes ≡ 0 → Conserves w w
Conserves-refl w h = omega arith

written-Conserves :
    (w : FileSystemWriter) (n : ℕ)
    → IsValid w
    → n < 2 ^ 61
    → Conserves w (allocate_accumulated (advance w n)).0
written-Conserves w n v h =
    let step = advance-Conserves w n v h in
    Conserves-trans w (advance w n) (allocate_accumulated (advance w n)).0 step
      (allocate_accumulated-Conserves (advance w n) step.no_debt (advance-fits w n v h))

-- A write of less than 2 ^ 61 bytes by a valid writer, whatever the file returns and whether or not
-- the disk limit refuses the charge, keeps the balance: the usage charged and the bytes that wait
-- grow together by what the end of the file grows by.
pub write-Conserves :
    (w : FileSystemWriter) (outcome : Option ℕ)
    → IsValid w
    → unwrap_or outcome 0 < 2 ^ 61
    → Conserves w (write w outcome).0
unfolding write
write-Conserves w none v h = ground (arith, Conserves-refl w v.no_debt)
write-Conserves w (some n) v h =
    ground (arith, Conserves-refl w v.no_debt, advance-Conserves w n v h, written-Conserves w n v h)

pub seek-Conserves :
    (w : FileSystemWriter) (outcome : Option ℕ) → IsValid w → Conserves w (seek w outcome).0
unfolding seek allocate_accumulated
seek-Conserves w none v =
    ground (arith, allocate-cached w.filesystem w.parent (pos_part w.accumulated_bytes) w.ignorant)
seek-Conserves w (some p) v =
    ground (arith, allocate-cached w.filesystem w.parent (pos_part w.accumulated_bytes) w.ignorant)

pub flush-Conserves :
    (w : FileSystemWriter) (flushed : Bool) → IsValid w → Conserves w (flush w flushed).0
unfolding flush allocate_accumulated
flush-Conserves w flushed v =
    ground (arith, allocate-cached w.filesystem w.parent (pos_part w.accumulated_bytes) w.ignorant)

-- When a flush succeeds, no byte waits: all that the file grew by since the balance was struck is
-- charged.
pub flush-ok :
    (w : FileSystemWriter) (flushed : Bool)
    → IsValid w
    → (flush w flushed).1 ≡ ok tt
    → ((flush w flushed).0.accumulated_bytes ≡ pos 0)
      × ((flush w flushed).0.filesystem.disk_usage_cached
          ≡ w.filesystem.disk_usage_cached + pos_part w.accumulated_bytes)
unfolding flush allocate_accumulated
flush-ok w flushed v h =
    ground (arith, allocate-cached w.filesystem w.parent (pos_part w.accumulated_bytes) w.ignorant)
