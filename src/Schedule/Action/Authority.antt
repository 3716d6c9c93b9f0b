-- ===== src/Schedule/Action/Authority.antt =====
-- application/src/server/schedule/actions.rs: what the calls of an action are allowed on.
mod Files
pub mod Batch
pub mod Execute
use cyrogopus.Prelude.{
  ℕ, String, Bool, true, false, not, Option, none, some, List, [], ◌∷◌, ◌≡◌, inl, inr, refl, arith,
  if◌then◌else◌, All, Bool-cases,
}
use cyrogopus.State.{offline, stopping, is_state}
use cyrogopus.Server.Power.{
  ServerPowerAction, start_action, stop_action, restart_action, kill_action,
}
use cyrogopus.Cap.{PathBuf}
use cyrogopus.Schedule.Action.{
  View, Out, Effect, sleep_for, power, send_stdin, request_backup, run_backup, create_dir_all,
  chown_path, flush_file, sync_file, truncate_path, create_writer, open_archive, allocate,
  open_with, write_all, copy, rename_path, extract, create_tar, create_zip, create_7z, set_variable,
  set_command, set_docker_image, log_activity, succeeds, success, then_out, guard, found, attempt,
  finish_task,
}

-- A path is visible when it is not ignored, as a directory or as a file.
abbrev pub IsVisible : View → PathBuf → Type 0
IsVisible v p = (d : Bool) × (v.is_ignored p d ≡ false)

-- The state in which a power action is called.
abbrev pub IsDue : View → ServerPowerAction → Type 0
IsDue v start_action = is_state v.state offline ≡ true
IsDue v restart_action = v.restarting ≡ false
IsDue v stop_action = (is_state v.state offline ≡ false) × (is_state v.state stopping ≡ false)
IsDue v kill_action = is_state v.state offline ≡ false

-- What a call is made on. A copy and an extraction are checked for what they read only.
abbrev pub IsAllowed : View → Effect → Type 0
IsAllowed v (sleep_for duration) = Unit
IsAllowed v (power action timeout) = IsDue v action
IsAllowed v (send_stdin text) = is_state v.state offline ≡ false
IsAllowed v (request_backup name ignored) = Unit
IsAllowed v (run_backup adapter uuid ignored) = v.has_backup uuid ≡ false
IsAllowed v (create_dir_all p) = IsVisible v p
IsAllowed v (chown_path p) = IsVisible v p
IsAllowed v (flush_file p) = IsVisible v p
IsAllowed v (sync_file p) = IsVisible v p
IsAllowed v (truncate_path p) = IsVisible v p
IsAllowed v (create_writer p) = IsVisible v p
IsAllowed v (open_archive p) = IsVisible v p
IsAllowed v (allocate p n) = IsVisible v p
IsAllowed v (open_with p append) = IsVisible v p
IsAllowed v (write_all p content) = IsVisible v p
IsAllowed v (copy p q) = IsVisible v p
IsAllowed v (rename_path p q) = IsVisible v p × IsVisible v q
IsAllowed v (extract p q) = IsVisible v p
IsAllowed v (create_tar p root files compression level threads) = IsVisible v p
IsAllowed v (create_zip p root files level) = IsVisible v p
IsAllowed v (create_7z p root files) = IsVisible v p
IsAllowed v (set_variable variable value) = Unit
IsAllowed v (set_command command) = Unit
IsAllowed v (set_docker_image image) = Unit
IsAllowed v (log_activity event) = Unit

abbrev pub IsSafe : View → Out → Type 0
IsSafe v out = All (IsAllowed v) out.0

module _ (v : View) where
  pub guard-IsSafe :
      (b : Bool) (message : String) (out : Out)
      → (b ≡ true → IsSafe v out)
      → IsSafe v (guard b message out)
  guard-IsSafe true message out h = h refl
  guard-IsSafe false message out h = tt

  pub found-IsSafe {ℓ} :
      {A : Type ℓ} (o : Option A) (message : String) (k : A → Out)
      → ((a : A) → IsSafe v (k a))
      → IsSafe v (found o message k)
  found-IsSafe none message k h = tt
  found-IsSafe (some a) message k h = h a

  pub attempt-IsSafe :
      (e : Effect) (message : String) (out : Out)
      → IsAllowed v e
      → IsSafe v out
      → IsSafe v (attempt v e message out)
  attempt-IsSafe e message out h rest = elim (Bool-cases (succeeds v e)) [
    | inl s ↦ rw s (h, rest)
    | inr s ↦ rw s (h, tt)
  ]

  pub if-IsSafe : (b : Bool) (x y : Out) → IsSafe v x → IsSafe v y → IsSafe v (if b then x else y)
  if-IsSafe true x y h k = h
  if-IsSafe false x y h k = k

  pub finish_task-IsSafe :
      (foreground done : Bool) (message : String) → IsSafe v (finish_task foreground done message)
  finish_task-IsSafe true true message = tt
  finish_task-IsSafe true false message = tt
  finish_task-IsSafe false done message = tt

  -- The test on a path, read as its visibility.
  pub IsVisible-not : (p : PathBuf) (d : Bool) → not (v.is_ignored p d) ≡ true → IsVisible v p
  IsVisible-not p d h = (d, ground (arith, h))
