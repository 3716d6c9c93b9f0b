-- ===== src/Server/Crash.antt =====
-- application/src/server/mod.rs: when a server is started again after its container stopped.
use cyrogopus.Prelude.{
  ℕ, ◌-◌, ◌/◌, ◌^◌, Bool, true, false, not, List, [], ◌∷◌, Option, none, some, ◌≡◌, inl, inr, arith,
  ◌&&◌, ◌||◌, leb, any, if◌then◌else◌, Bool-cases,
}
use cyrogopus.Prelude.Int.{ℤ}
use cyrogopus.State.{offline, get_state}
use cyrogopus.State.Action.{state-set_state}
use cyrogopus.Server.{
  InnerServer, Config, Effect, start_server, container_stopped, handle_crash, is_zero,
}

abbrev pub is_start : Effect → Bool
is_start start_server = true
is_start _ = false

-- Whether the effects ask for a start.
abbrev pub starts : List Effect → Bool
starts effects = any is_start effects

-- A clean exit, by the settings.
abbrev pub is_clean : Config → Option ℤ → Bool → Bool
is_clean cfg exit_code oom_killed =
    is_zero exit_code && (not oom_killed && not cfg.detect_clean_exit_as_crash)

-- Whether the last crash is long enough ago.
abbrev pub is_spaced : Config → Option ℕ → ℕ → Bool
is_spaced cfg none now = true
is_spaced cfg (some last) now = leb cfg.crash_timeout ((now - last) / 10 ^ 9)

starts-handle_crash :
    (cfg : Config) (s : InnerServer) (now : ℕ)
    → starts (handle_crash cfg s now).1 ≡ is_spaced cfg s.last_crash now
unfolding handle_crash
starts-handle_crash cfg s now = ground arith

-- A stopped server is started again exactly when a restart was asked for, or when it was not asked
-- to stop, crash detection is on, the crash was not dealt with yet, it was no clean exit, and the
-- last crash is at least the timeout ago.
pub starts-container_stopped :
    (cfg : Config) (s : InnerServer) (exit_code : Option ℤ) (oom_killed : Bool) (now : ℕ)
    → starts (container_stopped cfg s exit_code oom_killed now).1 ≡ (
        s.restarting
        || (not s.stopping
            && (cfg.crash_detection_enabled
                && (not s.crash_handled
                    && (not (is_clean cfg exit_code oom_killed)
                        && is_spaced cfg s.last_crash now)))))
unfolding container_stopped
starts-container_stopped cfg s exit_code oom_killed now = ground arith

-- Whatever the flags, a stopped server reads as offline, and no restart is pending.
pub container_stopped-offline :
    (cfg : Config) (s : InnerServer) (exit_code : Option ℤ) (oom_killed : Bool) (now : ℕ)
    → (get_state (container_stopped cfg s exit_code oom_killed now).0.state ≡ some offline)
      × ((container_stopped cfg s exit_code oom_killed now).0.restarting ≡ false)
unfolding container_stopped handle_crash
container_stopped-offline cfg s exit_code oom_killed now =
    ground (arith, state-set_state s.state offline)

-- What a server goes through: its container is set up again, or stops.
pub data Event : Type 0 where
  set_up : Event
  stopped : Option ℤ → Bool → ℕ → Event

abbrev then_times : Bool → ℕ → List ℕ → List ℕ
then_times true now ts = now ∷ ts
then_times false now ts = ts

-- The times at which the events start the server again.
unfoldable pub restart_times : Config → InnerServer → List Event → List ℕ
restart_times cfg s [] = []
restart_times cfg s (set_up ∷ es) = restart_times cfg (record s { crash_handled = false }) es
restart_times cfg s (stopped exit_code oom_killed now ∷ es) =
    let after = container_stopped cfg s exit_code oom_killed now in
    then_times (starts after.1) now (restart_times cfg after.0 es)

-- Each time is at least the timeout after the one before.
abbrev pub IsSpaced : Config → Option ℕ → List ℕ → Type 0
IsSpaced cfg last [] = Unit
IsSpaced cfg last (now ∷ ts) = (is_spaced cfg last now ≡ true) × IsSpaced cfg (some now) ts

last_crash-container_stopped :
    (cfg : Config) (s : InnerServer) (exit_code : Option ℤ) (oom_killed : Bool) (now : ℕ)
    → s.restarting ≡ false
    → (container_stopped cfg s exit_code oom_killed now).0.last_crash ≡ (
        if starts (container_stopped cfg s exit_code oom_killed now).1
        then some now
        else s.last_crash)
unfolding container_stopped handle_crash
last_crash-container_stopped cfg s exit_code oom_killed now h = ground arith

starts-is_spaced :
    (cfg : Config) (s : InnerServer) (exit_code : Option ℤ) (oom_killed : Bool) (now : ℕ)
    → s.restarting ≡ false
    → starts (container_stopped cfg s exit_code oom_killed now).1 ≡ true
    → is_spaced cfg s.last_crash now ≡ true
starts-is_spaced cfg s exit_code oom_killed now h start =
    ground (arith, starts-container_stopped cfg s exit_code oom_killed now)

IsSpaced-step :
    (cfg : Config) (s : InnerServer) (exit_code : Option ℤ) (oom_killed : Bool) (now : ℕ)
    → s.restarting ≡ false
    → (ts : List ℕ)
    → IsSpaced cfg (container_stopped cfg s exit_code oom_killed now).0.last_crash ts
    → IsSpaced cfg s.last_crash
        (then_times (starts (container_stopped cfg s exit_code oom_killed now).1) now ts)
IsSpaced-step cfg s e o now h ts k =
    elim (Bool-cases (starts (container_stopped cfg s e o now).1)) [
      | inl start ↦ rw start (
        starts-is_spaced cfg s e o now h start,
        rw (last_crash-container_stopped cfg s e o now h, start) at k,
      )
      | inr stay ↦ rw stay (rw (last_crash-container_stopped cfg s e o now h, stay) at k)
    ]

-- Automatic restarts are at least the timeout apart: over any set-ups and stops of the container,
-- with any exit codes, from a server with no restart asked for.
pub restart_times-IsSpaced :
    (cfg : Config) (s : InnerServer) (es : List Event)
    → s.restarting ≡ false
    → IsSpaced cfg s.last_crash (restart_times cfg s es)
unfolding restart_times
restart_times-IsSpaced cfg s [] h = tt
restart_times-IsSpaced cfg s (set_up ∷ es) h =
    restart_times-IsSpaced cfg (record s { crash_handled = false }) es h
restart_times-IsSpaced cfg s (stopped e o now ∷ es) h =
    IsSpaced-step cfg s e o now h (restart_times cfg (container_stopped cfg s e o now).0 es) (
      restart_times-IsSpaced cfg (container_stopped cfg s e o now).0 es
        (container_stopped-offline cfg s e o now).1)
