-- ===== src/Server/Tests.antt =====
-- Runs of the power actions, on a server that runs and on one that is offline.
use cyrogopus.Prelude.{
  ◌*◌, ◌^◌, Bool, true, false, not, List, [], ◌∷◌, none, some, ◌≡◌, ◌↔◌, refl, ◌&&◌, ◌||◌,
}
use cyrogopus.Prelude.Int.{pos}
use cyrogopus.State.{ServerStateLock, offline, get_state, set_state, is_state, execute_action}
use cyrogopus.Server.{InnerServer, Config, container_stopped, is_locked_state}
use cyrogopus.Server.Crash.{
  Event, set_up, stopped, starts, is_clean, is_spaced, restart_times, IsSpaced,
  starts-container_stopped, restart_times-IsSpaced,
}
use cyrogopus.Server.Power.{start, stop, restart, StartProgress, started, ok, is_started}
use cyrogopus.Server.Power.Start.{may_take, start-ok_iff}
use cyrogopus.Server.Power.Stop.{stop-stays_down, restart-comes_back}

abbrev in_state : ServerStateLock → Bool → InnerServer
in_state state has_container = record {
  state = state;
  suspended = false;
  installing = false;
  restoring = false;
  transferring = false;
  restarting = false;
  stopping = false;
  last_crash = none;
  crash_handled = false;
  has_container = has_container;
}

abbrev up : InnerServer
up = in_state (record { state = 3; locked = false; triggered = []; sent = [] }) true

abbrev down : InnerServer
down = in_state (record { state = 0; locked = false; triggered = []; sent = [] }) false

abbrev settings : Config
settings = record {
  delete_container_on_stop = true;
  crash_detection_enabled = true;
  detect_clean_exit_as_crash = false;
  crash_timeout = 60;
}

abbrev boots : StartProgress
boots = record { synced = some false; step = started }

starts-container_stopped_example :
    starts (container_stopped settings up (some (pos 1)) false 5).1 ≡ (
      up.restarting
      || (not up.stopping
          && (settings.crash_detection_enabled
              && (not up.crash_handled
                  && (not (is_clean settings (some (pos 1)) false)
                      && is_spaced settings up.last_crash 5)))))
starts-container_stopped_example = starts-container_stopped settings up (some (pos 1)) false 5

-- Three crashes: at once, thirty seconds later, and two minutes later.
abbrev crashes : List Event
crashes =
    stopped (some (pos 1)) false 5
    ∷ set_up
    ∷ stopped (some (pos 1)) false (30 * 10 ^ 9)
    ∷ set_up
    ∷ stopped none true (120 * 10 ^ 9)
    ∷ []

crash-restarts : restart_times settings up crashes ≡ 5 ∷ 120 * 10 ^ 9 ∷ []
unfolding restart_times container_stopped set_state
crash-restarts = refl

restart_times-IsSpaced_example : IsSpaced settings none (restart_times settings up crashes)
restart_times-IsSpaced_example = restart_times-IsSpaced settings up crashes refl

start-ok_iff_example : ((start down false none false boots).1 ≡ ok) ↔ (
    (is_locked_state down ≡ false)
    × (is_state (get_state down.state) offline ≡ true)
    × (false ≡ false)
    × (may_take none false ≡ true)
    × (is_started boots ≡ true))
start-ok_iff_example = start-ok_iff down false none false boots

stop-stays_down_example :
    starts (container_stopped settings (stop up none false).0 (some (pos 1)) false 5).1 ≡ false
unfolding stop get_state execute_action
stop-stays_down_example =
    stop-stays_down up none false settings (some (pos 1)) false 5 (refl, refl) refl refl refl

restart-comes_back_example :
    let after = container_stopped settings (restart up false none boots).0 (some (pos 0)) false 5 in
    (starts after.1 ≡ true)
    × (after.0.restarting ≡ false)
    × (get_state after.0.state ≡ some offline)
unfolding restart stop get_state execute_action
restart-comes_back_example =
    restart-comes_back up false none boots settings (some (pos 0)) false 5 refl refl
