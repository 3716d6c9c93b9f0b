-- ===== src/State/Stream.antt =====
-- application/src/server/state.rs: the stream of states that schedules and websocket clients see.
use cyrogopus.Prelude.{
  false, List, [], ◌∷◌, ◌++◌, some, ◌≡◌, refl, Bool-cases, inl, inr, ap, sym, ◌∙◌, map,
}
use cyrogopus.State.{
  ServerState, offline, to_str, from_u8, to_u8, same, ServerStateLock, new, get_state, set_state,
}

-- What is stored is read back, so that no read of a stored state panics.
pub from_u8-to_u8 : (s : ServerState) → from_u8 (to_u8 s) ≡ some s
unfolding from_u8
from_u8-to_u8 offline = refl
from_u8-to_u8 _ = refl

-- The last element of a list, or the given one.
abbrev pub last_or : ServerState → List ServerState → ServerState
last_or s [] = s
last_or s (t ∷ ts) = last_or t ts

-- No state is followed by itself, from the given one on.
abbrev pub IsStutterFree : ServerState → List ServerState → Type 0
IsStutterFree s [] = Unit
IsStutterFree s (t ∷ ts) = (same s t ≡ false) × IsStutterFree t ts

unfoldable pub set_states : ServerStateLock → List ServerState → ServerStateLock
set_states l [] = l
set_states l (s ∷ ss) = set_states (set_state l s) ss

-- The stream that led from `offline` to the stored state.
pub record IsFaithful (l : ServerStateLock) : Type 0 where
  pub stored : l.state ≡ to_u8 (last_or offline l.triggered)
  pub stutter_free : IsStutterFree offline l.triggered
  pub told : l.sent ≡ map to_str l.triggered

last_or-append : (s t : ServerState) (ts : List ServerState) → last_or s (ts ++ t ∷ []) ≡ t
last_or-append s t [] = refl
last_or-append s t (u ∷ ts) = last_or-append u t ts

IsStutterFree-append :
    (s t : ServerState) (ts : List ServerState)
    → IsStutterFree s ts
    → same (last_or s ts) t ≡ false
    → IsStutterFree s (ts ++ t ∷ [])
IsStutterFree-append s t [] h e = (e, tt)
IsStutterFree-append s t (u ∷ ts) h e = (h.0, IsStutterFree-append u t ts h.1 e)

map-append-one :
    (ts : List ServerState) (t : ServerState)
    → map to_str (ts ++ t ∷ []) ≡ map to_str ts ++ to_str t ∷ []
map-append-one [] t = refl
map-append-one (u ∷ ts) t = rw (map-append-one ts t)

same-last :
    (l : ServerStateLock) (s : ServerState)
    → IsFaithful l
    → get_state l ≡ some (last_or offline l.triggered)
unfolding get_state
same-last l s h = rw h.stored (from_u8-to_u8 (last_or offline l.triggered))

set_state-IsFaithful :
    (l : ServerStateLock) (s : ServerState) → IsFaithful l → IsFaithful (set_state l s)
unfolding set_state
set_state-IsFaithful l s h = elim (Bool-cases (same (last_or offline l.triggered) s)) [
  | inl e ↦ rw (same-last l s h, set_state) (rw e h)
  | inr e ↦
      rw (same-last l s h, set_state)
        (rw e (record {
          stored = ap to_u8 (sym (last_or-append offline s l.triggered));
          stutter_free = IsStutterFree-append offline s l.triggered h.stutter_free e;
          told = ap (λ m. m ++ to_str s ∷ []) h.told ∙ sym (map-append-one l.triggered s);
        }))
]

set_states-from :
    (l : ServerStateLock) (ss : List ServerState) → IsFaithful l → IsFaithful (set_states l ss)
unfolding set_states
set_states-from l [] h = h
set_states-from l (s ∷ ss) h = set_states-from (set_state l s) ss (set_state-IsFaithful l s h)

-- From a new lock on, whatever states are set: the websocket was told the same states as the
-- schedules, in the same order; no state is told twice in a row; and the state that is read is the
-- one told last, or `offline` where none was.
pub set_states-IsFaithful : (ss : List ServerState) → IsFaithful (set_states new ss)
unfolding new
set_states-IsFaithful ss =
    set_states-from new ss (record { stored = refl; stutter_free = tt; told = refl })
