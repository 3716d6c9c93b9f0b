-- ===== src/State/Race.antt =====
-- application/src/server/state.rs: calls of `execute_action` without a timeout, by any number of
-- callers at once. The read of `locked` and the store that takes it are two atomic steps, and
-- others may come in between.
use cyrogopus.Prelude.{ℕ, Bool, true, false, ◌≡◌, ◌≢◌, ◌==◌, arith, if◌then◌else◌}

pub data Phase : Type 0 where
  calling checked refused acting finished : Phase

pub record World : Type 0 where
  pub locked : Bool
  pub phase : ℕ → Phase

abbrev pub move : World → ℕ → Phase → World
move w i p = record w { phase = λ j. if i == j then p else w.phase j }

pub data Step : World → World → Type 0 where
  check : (w : World) (i : ℕ) → w.phase i ≡ calling → w.locked ≡ false → Step w (move w i checked)
  refuse : (w : World) (i : ℕ) → w.phase i ≡ calling → w.locked ≡ true → Step w (move w i refused)
  take :
      (w : World) (i : ℕ)
      → w.phase i ≡ checked
      → Step w (record (move w i acting) { locked = true })
  leave :
      (w : World) (i : ℕ)
      → w.phase i ≡ acting
      → Step w (record (move w i finished) { locked = false })

pub data Reach (w : World) : World → Type 0 where
  here : Reach w w
  next : {u v : World} → Reach w u → Step u v → Reach w v

-- Wherever two callers find the lock free, they can both come to run their actions at once.
pub both-act :
    (w : World) (i j : ℕ)
    → i ≢ j
    → w.locked ≡ false
    → w.phase i ≡ calling
    → w.phase j ≡ calling
    → (u : World) × Reach w u × (u.phase i ≡ acting) × (u.phase j ≡ acting)
both-act w i j ne free ci cj =
    let w₁ : World = move w i checked in
    let w₂ : World = move w₁ j checked in
    let w₃ : World = record (move w₂ i acting) { locked = true } in
    let w₄ : World = record (move w₃ j acting) { locked = true } in
    (
      w₄,
      next
          (next (next (next here (check w i ci free)) (check w₁ j (ground arith) free))
            (take w₂ i (ground arith)))
          (take w₃ j (ground arith)),
      ground arith,
      ground arith,
    )
