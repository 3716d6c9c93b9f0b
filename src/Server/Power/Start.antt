-- ===== src/Server/Power/Start.antt =====
-- application/src/server/mod.rs: when a server starts, and what is left where it does not.
use cyrogopus.Prelude.{Bool, true, false, not, List, Option, none, some, ◌≡◌, ◌↔◌, arith, unwrap_or}
use cyrogopus.State.{offline, starting, get_state, is_state, execute_action}
use cyrogopus.State.Action.{execute_action-failed, execute_action-refused_lock, execute_action-done}
use cyrogopus.Server.{InnerServer, is_locked_state}
use cyrogopus.Server.Power.{start, StartProgress, is_started, PowerError, ok, err}

-- Whether a call is let through: one with a time to wait always is, and another where the lock is free.
abbrev pub may_take : Option (List Bool) → Bool → Bool
may_take none locked = not locked
may_take (some polls) locked = true

-- A start succeeds exactly when the server is not suspended, installing, restoring or transferring,
-- reads as offline, has room on its disk, docker starts the container, and, for a start without a
-- time to wait for the lock, the lock is free. A start with such a time goes ahead when it is over,
-- also where the lock was held throughout.
pub start-ok_iff :
    (s : InnerServer) (full : Bool) (timeout : Option (List Bool)) (skip : Bool)
    (progress : StartProgress)
    → ((start s full timeout skip progress).1 ≡ ok) ↔ (
        (is_locked_state s ≡ false)
        × (is_state (get_state s.state) offline ≡ true)
        × (full ≡ false)
        × (may_take timeout s.state.locked ≡ true)
        × (is_started progress ≡ true))
unfolding start execute_action
start-ok_iff s full none skip progress = (ground arith, ground arith)
start-ok_iff s full (some polls) skip progress = (ground arith, ground arith)

-- After a start that succeeds the server reads as starting, has a container, will have its next
-- crash dealt with, and is free for another power action. It is suspended where the panel, asked
-- during the start, says so: that does not hold the start up.
start-ok :
    (s : InnerServer) (full : Bool) (timeout : Option (List Bool)) (skip : Bool)
    (progress : StartProgress)
    → (start s full timeout skip progress).1 ≡ ok
    → let s' = (start s full timeout skip progress).0 in
      (get_state s'.state ≡ some starting)
      × (s'.has_container ≡ true)
      × (s'.crash_handled ≡ false)
      × (s'.state.locked ≡ false)
      × (s'.suspended ≡ unwrap_or progress.synced s.suspended)
unfolding start
start-ok s full timeout skip progress h =
    ground (arith, execute_action-done s.state starting (is_started progress) timeout)

-- A start that fails, of a server that reads as offline, leaves it reading as offline.
start-err :
    (s : InnerServer) (full : Bool) (timeout : Option (List Bool)) (skip : Bool)
    (progress : StartProgress) (e : PowerError)
    → is_state (get_state s.state) offline ≡ true
    → (start s full timeout skip progress).1 ≡ err e
    → is_state (get_state (start s full timeout skip progress).0.state) offline ≡ true
unfolding start
start-err s full timeout skip progress e h k = ground (
  arith,
  execute_action-failed s.state starting offline (λ acquired l. (l, is_started progress)) timeout,
  execute_action-refused_lock s.state starting (λ acquired l. (l, is_started progress)) timeout,
)
