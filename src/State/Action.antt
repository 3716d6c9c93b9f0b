-- ===== src/State/Action.antt =====
-- application/src/server/state.rs: what a power action leaves, and when it is refused.
use cyrogopus.Prelude.{
  Bool, true, false, not, List, [], ◌∷◌, Option, none, some, ◌≡◌, ◌↔◌, refl, arith, any, all,
}
use cyrogopus.State.{
  ServerState, ServerStateLock, done, refused, failed, offline, execute_action, get_state,
  set_state,
}

-- An action of a caller: it is told whether a wait got the lock, and may set the state itself.
abbrev pub Action : Type 0
Action = Bool → ServerStateLock → ServerStateLock × Bool

-- A call is refused exactly when it was given no time to wait and found the lock held; given a
-- time, it is never refused.
execute_action-refused_iff :
    (l : ServerStateLock) (s : ServerState) (action : Action) (timeout : Option (List Bool))
    → ((execute_action l s action timeout).1 ≡ refused) ↔ ((timeout ≡ none) × (l.locked ≡ true))
unfolding execute_action
execute_action-refused_iff l s action none = (ground arith, ground arith)
execute_action-refused_iff l s action (some polls) = (ground arith, ground arith)

any-not-all : (polls : List Bool) → all (λ b. b) polls ≡ true → any not polls ≡ false
any-not-all [] h = refl
any-not-all (true ∷ polls) h = any-not-all polls h
any-not-all (false ∷ polls) h = cc

-- Where the lock is held throughout the time to wait and the action succeeds, it runs without the
-- lock, told so, and the call reports that it was done.
timeout-runs_action :
    (l : ServerStateLock) (s : ServerState) (action : Action) (polls : List Bool)
    → all (λ b. b) polls ≡ true
    → (action false (set_state (record l { locked = true }) s)).1 ≡ true
    → execute_action l s action (some polls) ≡ (
      record (action false (set_state (record l { locked = true }) s)).0 { locked = false },
      done,
    )
unfolding execute_action
timeout-runs_action l s action polls held success = ground (arith, any-not-all polls held, success)

pub state-set_state : (l : ServerStateLock) (s : ServerState) → get_state (set_state l s) ≡ some s
unfolding set_state get_state
state-set_state l offline = ground arith
state-set_state l _ = ground arith

get_state-locked :
    (l : ServerStateLock) (b : Bool) → get_state (record l { locked = b }) ≡ get_state l
unfolding get_state
get_state-locked l b = refl

-- After an action that fails, whatever it did, the state is the one from before the call, and the
-- lock is free.
pub execute_action-failed :
    (l : ServerStateLock) (s old : ServerState) (action : Action) (timeout : Option (List Bool))
    → get_state l ≡ some old
    → (execute_action l s action timeout).1 ≡ failed
    → (get_state (execute_action l s action timeout).0 ≡ some old)
      × ((execute_action l s action timeout).0.locked ≡ false)
unfolding execute_action
execute_action-failed l s old action none h f =
    let l' = (action false (set_state (record l { locked = true }) s)).0 in
    ground (arith, get_state-locked (set_state l' old) false, state-set_state l' old, h)
execute_action-failed l s old action (some polls) h f =
    let l' = (action (any not polls) (set_state (record l { locked = true }) s)).0 in
    ground (arith, get_state-locked (set_state l' old) false, state-set_state l' old, h)

-- After an action that sets no state itself and succeeds, the state is the one that the call was
-- for, and the lock is free.
pub execute_action-done :
    (l : ServerStateLock) (s : ServerState) (success : Bool) (timeout : Option (List Bool))
    → (execute_action l s (λ acquired l'. (l', success)) timeout).1 ≡ done
    → (get_state (execute_action l s (λ acquired l'. (l', success)) timeout).0 ≡ some s)
      × ((execute_action l s (λ acquired l'. (l', success)) timeout).0.locked ≡ false)
      × (success ≡ true)
unfolding execute_action
execute_action-done l s success none h =
    let taken : ServerStateLock = record l { locked = true } in
    ground (arith, get_state-locked (set_state taken s) false, state-set_state taken s)
execute_action-done l s success (some polls) h =
    let taken : ServerStateLock = record l { locked = true } in
    ground (arith, get_state-locked (set_state taken s) false, state-set_state taken s)

pub execute_action-refused_lock :
    (l : ServerStateLock) (s : ServerState) (action : Action) (timeout : Option (List Bool))
    → (execute_action l s action timeout).1 ≡ refused
    → (execute_action l s action timeout).0 ≡ l
unfolding execute_action
execute_action-refused_lock l s action none h = ground arith
execute_action-refused_lock l s action (some polls) h = ground arith

-- A call that finds the lock free, without a time to wait, is done when its action succeeds.
pub execute_action-free :
    (l : ServerStateLock) (s : ServerState)
    → l.locked ≡ false
    → (execute_action l s (λ acquired l'. (l', true)) none).1 ≡ done
unfolding execute_action
execute_action-free l s h = ground arith
