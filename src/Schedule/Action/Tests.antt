-- ===== src/Schedule/Action/Tests.antt =====
-- Actions on a server that is up and ignores one file.
use cyrogopus.Prelude.{String, Bool, true, false, List, [], ◌∷◌, none, some, ◌≡◌, refl, All, all}
use cyrogopus.State.{running}
use cyrogopus.Cap.{root_dir, normal, PathBuf}
use cyrogopus.Sftp.{directory}
use cyrogopus.Sftp.Paths.{same_path}
use cyrogopus.Websocket.Handler.{succeeded}
use cyrogopus.Server.Power.{restart_action}
use cyrogopus.Schedule.Action.{ScheduleAction, delete_files, send_power, sleep, View}
use cyrogopus.Schedule.Action.Execute.{execute}
use cyrogopus.Schedule.Action.Authority.{IsAllowed}
use cyrogopus.Schedule.Action.Authority.Execute.{execute-IsSafe}
use cyrogopus.Schedule.Action.Run.{Step, calls, complete, ignores_failure, run-locked}

abbrev at_root : String → PathBuf
at_root name = root_dir ∷ normal name ∷ []

abbrev view : Bool → View
view locked = record {
  locked = locked;
  state = some running;
  restarting = false;
  auto_kill_enabled = true;
  auto_kill_seconds = 30;
  has_stdin = true;
  make_ascii_lowercase = λ s. s;
  backup = some (0, 7);
  has_backup = λ uuid. false;
  canonicalize = λ p. some p;
  metadata = λ p. none;
  symlink_metadata = λ p. some (record { kind = directory; len = 0 });
  is_ignored = λ p d. same_path p (at_root "secret");
  compression_level = 1;
  file_compression_threads = 2;
  outcome = λ e. succeeded;
}

abbrev deletion : ScheduleAction
deletion =
    delete_files (root_dir ∷ []) ((normal "secret" ∷ [], false) ∷ (normal "log" ∷ [], false) ∷ [])

execute-IsSafe_example :
    All (λ e. (false ≡ false) × IsAllowed (view false) e) (execute (view false) deletion).0
execute-IsSafe_example = execute-IsSafe (view false) deletion

abbrev nightly : List Step
nightly =
    record { uuid = 1; view = view true; action = send_power true restart_action }
    ∷ record { uuid = 2; view = view true; action = sleep 1000 }
    ∷ []

run-locked_example :
    (calls nightly ≡ []) × ((complete nightly).successful ≡ all ignores_failure nightly)
run-locked_example = run-locked nightly (refl, (refl, tt))
