-- ===== src/Backup/Restore.antt =====
-- application/src/server/backup/manager.rs: the restoration of a backup on a server.
use cyrogopus.Prelude.{
  ℕ, suc, Bool, true, false, not, ◌&&◌, List, [], ◌∷◌, ◌++◌, ◌≡◌, refl, arith, any, if◌then◌else◌,
}
use cyrogopus.Server.{InnerServer, is_locked_state}
use cyrogopus.Server.Power.{PowerResult, ok, err, Reply, Wait, stop_with_kill_timeout}

-- The calls. The server is stopped before any of them.
pub data Effect : Type 0 where
  truncate_root start_progress abort_progress log_daemon send_completed : Effect
  restore_backup : ℕ → Effect
  set_restore_status : ℕ → Bool → Effect

-- What the calls answer, and what the stop of the server waits for.
pub record View : Type 0 where
  pub wait : Wait
  pub truncates : Bool
  pub restores : Bool
  pub status_taken : Bool → Bool
  pub sent : Bool

pub record Restored : Type 0 where
  pub server : InnerServer
  pub effects : List Effect
  pub is_ok : Bool

-- The end with an error, which the panel is told of.
abbrev pub give_up : InnerServer → ℕ → List Effect → Restored
give_up s u before = record {
  server = record s { restoring = false };
  effects = before ++ set_restore_status u false ∷ [];
  is_ok = false;
}

abbrev pub finish : View → InnerServer → ℕ → List Effect → Restored
finish v s u before = record {
  server = record s { restoring = false };
  effects =
      before
      ++ log_daemon
        ∷ set_restore_status u true
        ∷ (if v.status_taken true then send_completed ∷ [] else []);
  is_ok = v.status_taken true && v.sent;
}

abbrev pub run_restore : View → InnerServer → ℕ → List Effect → Restored
run_restore v s u before =
    let calls = before ++ start_progress ∷ restore_backup u ∷ abort_progress ∷ [] in
    if v.restores then finish v s u calls else give_up s u calls

-- After the stop of the server.
abbrev pub after_stop : View → ℕ → Bool → Reply → Restored
after_stop v u truncate_directory (s, err e, triggers) = give_up s u []
after_stop v u truncate_directory (s, ok, triggers) =
    if truncate_directory
    then (if v.truncates
        then run_restore v s u (truncate_root ∷ [])
        else give_up s u (truncate_root ∷ []))
    else run_restore v s u []

unfoldable pub restore : View → InnerServer → ℕ → Bool → Restored
restore v s u truncate_directory =
    if is_locked_state s
    then record { server = s; effects = []; is_ok = false }
    else after_stop v u truncate_directory
        (stop_with_kill_timeout (record s { restoring = true }) false v.wait)

abbrev pub is_change : Effect → Bool
is_change truncate_root = true
is_change (restore_backup u) = true
is_change _ = false

abbrev pub reports : List Effect → ℕ
reports [] = 0
reports (set_restore_status u b ∷ es) = suc (reports es)
reports (_ ∷ es) = reports es

abbrev pub is_ok_result : PowerResult → Bool
is_ok_result ok = true
is_ok_result (err e) = false

-- Whether the server is free and the stop that a restoration begins with succeeds.
abbrev pub is_stopped : View → InnerServer → Bool
is_stopped v s =
    not (is_locked_state s)
    && is_ok_result (stop_with_kill_timeout (record s { restoring = true }) false v.wait).1

after_stop_lem :
    (v : View) (u : ℕ) (truncate_directory : Bool) (r : Reply)
    → ((after_stop v u truncate_directory r).server.restoring ≡ false)
      × (any is_change (after_stop v u truncate_directory r).effects ≡ is_ok_result r.1)
      × (reports (after_stop v u truncate_directory r).effects ≡ 1)
after_stop_lem v u truncate_directory (s, err e, triggers) = (refl, refl, refl)
after_stop_lem v u truncate_directory (s, ok, triggers) = ground arith

-- A restoration leaves the flag that locks the server as it was, whether it succeeds or not. It
-- asks for a change of the files exactly if the server was not locked and its stop succeeded, and the panel is
-- told of the outcome once, but not for a locked server.
pub restore_lem :
    (v : View) (s : InnerServer) (u : ℕ) (truncate_directory : Bool)
    → ((restore v s u truncate_directory).server.restoring ≡ s.restoring)
      × (any is_change (restore v s u truncate_directory).effects ≡ is_stopped v s)
      × (reports (restore v s u truncate_directory).effects ≡ (if is_locked_state s then 0 else 1))
unfolding restore is_locked_state
restore_lem v s u truncate_directory = ground (
  arith,
  after_stop_lem v u truncate_directory
      (stop_with_kill_timeout (record s { restoring = true }) false v.wait),
)
