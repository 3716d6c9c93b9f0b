-- ===== src/State.antt =====
-- application/src/server/state.rs: the power state of a server, and the lock that a power action
-- holds. The `AtomicU8` holds what `to_u8` stores; `from_u8` reads it back (`none` is the panic).
-- What `set_state` tells the schedules and the websocket is kept in two lists, the oldest first.
pub mod Stream
pub mod Action
pub mod Race
mod Tests
use cyrogopus.Prelude.{
  ℕ, String, Bool, true, false, not, List, [], ◌∷◌, ◌++◌, Option, none, some, ◌==◌, any, unwrap_or,
  if◌then◌else◌,
}

pub data ServerState : Type 0 where
  offline starting stopping running : ServerState

unfoldable pub to_str : ServerState → String
to_str offline = "offline"
to_str starting = "starting"
to_str stopping = "stopping"
to_str running = "running"

unfoldable pub from_u8 : ℕ → Option ServerState
from_u8 value =
    if value == 0
    then some offline
    else if value == 1
    then some starting
    else if value == 2
    then some stopping
    else if value == 3
    then some running
    else none

abbrev pub to_u8 : ServerState → ℕ
to_u8 offline = 0
to_u8 starting = 1
to_u8 stopping = 2
to_u8 running = 3

abbrev pub same : ServerState → ServerState → Bool
same s t = to_u8 s == to_u8 t

pub record ServerStateLock : Type 0 where
  pub state : ℕ  -- AtomicU8
  pub locked : Bool
  pub triggered : List ServerState
  pub sent : List String

unfoldable pub new : ServerStateLock
new = record { state = 0; locked = false; triggered = []; sent = [] }

unfoldable pub get_state : ServerStateLock → Option ServerState
unfolding from_u8
get_state l = from_u8 l.state

abbrev pub is_state : Option ServerState → ServerState → Bool
is_state none t = false
is_state (some s) t = same s t

unfoldable pub set_state : ServerStateLock → ServerState → ServerStateLock
unfolding get_state to_str
set_state l state = if is_state (get_state l) state then l else record l {
  state = to_u8 state;
  triggered = l.triggered ++ state ∷ [];
  sent = l.sent ++ to_str state ∷ [];
}

-- What a call of `execute_action` returns: `Ok(true)`, `Ok(false)` or `Err`.
pub data Outcome : Type 0 where
  done refused failed : Outcome

-- The wait for the lock. With a timeout, `polls` has what `locked` was each time that it was read
-- before the time was up; the first free one ends the wait. `none` is the early return.
unfoldable pub acquire : Option (List Bool) → Bool → Option Bool
acquire none locked = if locked then none else some false
acquire (some polls) locked = some (any not polls)

-- One call that no other call interleaves with. The action is told whether a wait got the lock, and
-- may itself set the state; its Boolean says whether it succeeded.
unfoldable pub execute_action :
    ServerStateLock
    → ServerState
    → (Bool → ServerStateLock → ServerStateLock × Bool)
    → Option (List Bool)
    → ServerStateLock × Outcome
unfolding acquire set_state
execute_action l state action timeout = elim (acquire timeout l.locked) [
  | none ↦ (l, refused)
  | some acquired ↦
      let (l', success) = action acquired (set_state (record l { locked = true }) state) in
      if success
      then (record l' { locked = false }, done)
      else (record (set_state l' (unwrap_or (get_state l) offline)) { locked = false }, failed)
]
