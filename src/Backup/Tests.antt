-- ===== src/Backup/Tests.antt =====
-- A storage with one backup, in wings.
use cyrogopus.Prelude.{
  ℕ, true, false, not, ◌&&◌, ◌||◌, [], ◌∷◌, none, some, ◌≡◌, ◌==◌, any, if◌then◌else◌,
}
use cyrogopus.State
use cyrogopus.State.{running, set_state}
use cyrogopus.Server.{InnerServer, is_locked_state}
use cyrogopus.Backup.{BackupAdapter, wings, Found, absent, found, Storage, new, fast_contains}
use cyrogopus.Backup.Cache.{get}
use cyrogopus.Backup.Find.{IsAnswer, find_backup, browse_backup, search_for, run, run-IsAnswer}
use cyrogopus.Backup.Create
use cyrogopus.Backup.Create.{create, ignore_lines, is_abort, is_adapter, create-fast_contains}
use cyrogopus.Backup.Restore
use cyrogopus.Backup.Restore.{restore, is_change, is_stopped, reports, restore_lem}

abbrev find_in_wings : BackupAdapter → ℕ → Found
find_in_wings wings u = if u == 7 then found (record { uuid = 7; adapter = wings }) else absent
find_in_wings a u = absent

abbrev storage : Storage
storage = record { exists = λ a u. some false; find = find_in_wings; can_browse = λ b. true }

run-IsAnswer_example :
    IsAnswer storage 7
      (search_for storage browse_backup (run storage ((find_backup, 7, 10) ∷ [])) 7 400).1
run-IsAnswer_example = run-IsAnswer storage ((find_backup, 7, 10) ∷ []) browse_backup 7 400

abbrev creation : Create.View
creation = record {
  is_line = λ l. true;
  builds = λ ls. true;
  pteroignore = some ("cache" ∷ []);
  file_denylist = "secret" ∷ [];
  created = some true;
  status_taken = λ b. true;
  sent = λ b. true;
}

create-fast_contains_example :
    (fast_contains
        (create creation new [] wings 7 []).manager
        (create creation new [] wings 7 []).backups
        7
      ≡ (fast_contains new [] 7 || ((create creation new [] wings 7 []).is_ok && 7 == 7)))
    × ((not (create creation new [] wings 7 []).is_ok
          || is_adapter wings
              (get 7 (create creation new [] wings 7 []).manager.cached_backup_adapters))
        ≡ true)
    × (any is_abort (create creation new [] wings 7 []).effects
        ≡ creation.builds (ignore_lines creation []))
create-fast_contains_example = create-fast_contains creation new [] wings 7 7 []

abbrev server : InnerServer
server = record {
  state = set_state State.new running;
  suspended = false;
  installing = false;
  restoring = false;
  transferring = false;
  restarting = false;
  stopping = false;
  last_crash = none;
  crash_handled = false;
  has_container = true;
}

abbrev restoration : Restore.View
restoration = record {
  wait = record { meanwhile = λ s. s; ended = true; killed = false };
  truncates = true;
  restores = false;
  status_taken = λ b. true;
  sent = true;
}

restore_lem_example :
    ((restore restoration server 7 true).server.restoring ≡ server.restoring)
    × (any is_change (restore restoration server 7 true).effects ≡ is_stopped restoration server)
    × (reports (restore restoration server 7 true).effects
        ≡ (if is_locked_state server then 0 else 1))
restore_lem_example = restore_lem restoration server 7 true
