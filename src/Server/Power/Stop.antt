-- ===== src/Server/Power/Stop.antt =====
-- application/src/server/mod.rs: stops, kills and restarts, together with the exit of the container
-- that follows them.
use cyrogopus.Prelude.{ℕ, Bool, true, false, List, Option, none, some, ◌≡◌, refl, arith}
use cyrogopus.Prelude.Int.{ℤ}
use cyrogopus.State.{offline, stopping, get_state, is_state}
use cyrogopus.State.Action.{state-set_state, execute_action-free}
use cyrogopus.Server.{InnerServer, Config, container_stopped}
use cyrogopus.Server.Crash.{starts, starts-container_stopped, container_stopped-offline}
use cyrogopus.Server.Power.{
  stop, kill, restart, restart_with_kill_timeout, stop_with_kill_timeout, StartProgress, Wait, ok,
  err, already_restarting,
}

-- A server that is neither offline nor stopping.
abbrev pub IsUp : InnerServer → Type 0
IsUp s =
    (is_state (get_state s.state) offline ≡ false) × (is_state (get_state s.state) stopping ≡ false)

stop-flags :
    (s : InnerServer) (timeout : Option (List Bool)) (skip : Bool)
    → IsUp s
    → s.has_container ≡ true
    → (stop s timeout skip).1 ≡ ok
    → ((stop s timeout skip).0.stopping ≡ true)
      × ((stop s timeout skip).0.restarting ≡ s.restarting)
unfolding stop
stop-flags s timeout skip up c h = ground arith

-- After a stop that succeeds, of a server that is neither offline nor stopping, has a container and
-- no restart asked for, the exit of the container starts nothing, whatever its exit code and the
-- crash settings are.
pub stop-stays_down :
    (s : InnerServer) (timeout : Option (List Bool)) (skip : Bool) (cfg : Config)
    (exit_code : Option ℤ) (oom_killed : Bool) (now : ℕ)
    → IsUp s
    → s.has_container ≡ true
    → s.restarting ≡ false
    → (stop s timeout skip).1 ≡ ok
    → starts (container_stopped cfg (stop s timeout skip).0 exit_code oom_killed now).1 ≡ false
stop-stays_down s timeout skip cfg exit_code oom_killed now up c r h = ground (
  arith,
  stop-flags s timeout skip up c h,
  starts-container_stopped cfg (stop s timeout skip).0 exit_code oom_killed now,
)

-- After a kill that docker carries out, of a server that is not offline, has a container and no
-- restart asked for, the server reads as offline, and the exit of the container starts nothing.
kill-stays_down :
    (s : InnerServer) (skip : Bool) (cfg : Config) (exit_code : Option ℤ) (oom_killed : Bool)
    (now : ℕ)
    → is_state (get_state s.state) offline ≡ false
    → s.has_container ≡ true
    → s.restarting ≡ false
    → (get_state (kill s skip true).0.state ≡ some offline)
      × (starts (container_stopped cfg (kill s skip true).0 exit_code oom_killed now).1 ≡ false)
unfolding kill
kill-stays_down s skip cfg exit_code oom_killed now up c r = ground (
  arith,
  state-set_state s.state offline,
  starts-container_stopped cfg (kill s skip true).0 exit_code oom_killed now,
)

restart-flag :
    (s : InnerServer) (full : Bool) (timeout : Option (List Bool)) (progress : StartProgress)
    → is_state (get_state s.state) offline ≡ false
    → (restart s full timeout progress).1 ≡ ok
    → (restart s full timeout progress).0.restarting ≡ true
unfolding restart
restart-flag s full timeout progress up h = ground arith

-- After a restart of a server that is not offline succeeds, the exit of the container starts the
-- server again, whatever its exit code and the crash settings are, and ends the restart.
pub restart-comes_back :
    (s : InnerServer) (full : Bool) (timeout : Option (List Bool)) (progress : StartProgress)
    (cfg : Config) (exit_code : Option ℤ) (oom_killed : Bool) (now : ℕ)
    → is_state (get_state s.state) offline ≡ false
    → (restart s full timeout progress).1 ≡ ok
    → let after =
        container_stopped cfg (restart s full timeout progress).0 exit_code oom_killed now in
      (starts after.1 ≡ true)
      × (after.0.restarting ≡ false)
      × (get_state after.0.state ≡ some offline)
restart-comes_back s full timeout progress cfg exit_code oom_killed now up h = ground (
  arith,
  restart-flag s full timeout progress up h,
  starts-container_stopped cfg (restart s full timeout progress).0 exit_code oom_killed now,
  container_stopped-offline cfg (restart s full timeout progress).0 exit_code oom_killed now,
)

stop-free :
    (s : InnerServer) (skip : Bool)
    → IsUp s
    → s.has_container ≡ true
    → s.state.locked ≡ false
    → (stop s none skip).1 ≡ ok
unfolding stop
stop-free s skip up c l = ground (arith, execute_action-free s.state stopping l)

-- While the restart with a kill timeout waits for the container to go, its exit is handled.
abbrev pub handled_exit : Config → Option ℤ → Bool → ℕ → Wait
handled_exit cfg exit_code oom_killed now = record {
  meanwhile = λ s. (container_stopped cfg s exit_code oom_killed now).0;
  ended = true;
  killed = false;
}

stop_with_kill_timeout-ended :
    (s : InnerServer) (skip : Bool) (wait : Wait)
    → IsUp s
    → s.has_container ≡ true
    → wait.ended ≡ true
    → (stop s none skip).1 ≡ ok
    → ((stop_with_kill_timeout s skip wait).1 ≡ ok)
      × ((stop_with_kill_timeout s skip wait).0 ≡ wait.meanwhile (stop s none skip).0)
unfolding stop_with_kill_timeout
stop_with_kill_timeout-ended s skip wait up c e h = ground arith

restart_with_kill_timeout-up :
    (s : InnerServer) (full : Bool) (timeout : Option (List Bool)) (progress : StartProgress)
    (wait : Wait)
    → IsUp s
    → s.restarting ≡ false
    → (stop_with_kill_timeout s true wait).1 ≡ ok
    → ((restart_with_kill_timeout s full timeout progress wait).1 ≡ ok)
      × ((restart_with_kill_timeout s full timeout progress wait).0.restarting ≡ true)
      × ((restart_with_kill_timeout s full timeout progress wait).0.state
          ≡ (stop_with_kill_timeout s true wait).0.state)
unfolding restart_with_kill_timeout
restart_with_kill_timeout-up s full timeout progress wait up r h = ground arith

restart-marked :
    (s : InnerServer) (full : Bool) (timeout : Option (List Bool)) (progress : StartProgress)
    → s.restarting ≡ true
    → (restart s full timeout progress).1 ≡ err already_restarting
unfolding restart
restart-marked s full timeout progress h = ground arith

-- A restart with a kill timeout marks the server as restarting only after it has waited for the
-- container. For a server that is neither offline nor stopping, has a container, no restart asked
-- for and a free lock, and whose exit is handled before that: the exit starts nothing, the restart
-- reports success, the server is left offline, and the mark that is left refuses every restart.
late_mark-blocks_restart :
    (s : InnerServer) (full : Bool) (timeout : Option (List Bool)) (progress : StartProgress)
    (cfg : Config) (exit_code : Option ℤ) (oom_killed : Bool) (now : ℕ)
    → IsUp s
    → s.has_container ≡ true
    → s.restarting ≡ false
    → s.state.locked ≡ false
    → let wait = handled_exit cfg exit_code oom_killed now in
      let left = (restart_with_kill_timeout s full timeout progress wait).0 in
      (starts (container_stopped cfg (stop s none true).0 exit_code oom_killed now).1 ≡ false)
      × ((restart_with_kill_timeout s full timeout progress wait).1 ≡ ok)
      × (get_state left.state ≡ some offline)
      × ((full' : Bool) (timeout' : Option (List Bool)) (progress' : StartProgress)
          → (restart left full' timeout' progress').1 ≡ err already_restarting)
late_mark-blocks_restart s full timeout progress cfg exit_code oom_killed now up c r l =
    let wait : Wait = handled_exit cfg exit_code oom_killed now in
    let stopped = stop-free s true up c l in
    let waited = stop_with_kill_timeout-ended s true wait up c refl stopped in
    let marked = restart_with_kill_timeout-up s full timeout progress wait up r waited.0 in
    (
      stop-stays_down s none true cfg exit_code oom_killed now up c r stopped,
      marked.0,
      rw (marked.2, waited.1)
          (container_stopped-offline cfg (stop s none true).0 exit_code oom_killed now).0,
      λ full' timeout' progress'.
          restart-marked (restart_with_kill_timeout s full timeout progress wait).0 full' timeout'
            progress' marked.1,
    )
