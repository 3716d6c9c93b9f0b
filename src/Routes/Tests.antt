-- ===== src/Routes/Tests.antt =====
-- A deletion on a server that ignores one file.
use cyrogopus.Prelude.{String, false, [], ◌∷◌, none, some}
use cyrogopus.Cap.{root_dir, normal, PathBuf}
use cyrogopus.Sftp.{directory}
use cyrogopus.Sftp.Paths.{same_path}
use cyrogopus.Websocket.Handler.{succeeded}
use cyrogopus.Schedule.Action.{View}
use cyrogopus.Schedule.Action.Authority.{IsSafe}
use cyrogopus.Routes.{Request, delete_request, serve}
use cyrogopus.Routes.Authority.{serve-IsSafe}

abbrev at_root : String → PathBuf
at_root name = root_dir ∷ normal name ∷ []

abbrev view : View
view = record {
  locked = false;
  state = none;
  restarting = false;
  auto_kill_enabled = false;
  auto_kill_seconds = 0;
  has_stdin = false;
  make_ascii_lowercase = λ s. s;
  backup = none;
  has_backup = λ uuid. false;
  canonicalize = λ p. some p;
  metadata = λ p. none;
  symlink_metadata = λ p. some (record { kind = directory; len = 0 });
  is_ignored = λ p d. same_path p (at_root "secret");
  compression_level = 1;
  file_compression_threads = 2;
  outcome = λ e. succeeded;
}

abbrev request : Request
request =
    delete_request (root_dir ∷ []) ((normal "secret" ∷ [], false) ∷ (normal "log" ∷ [], false) ∷ [])

serve-IsSafe_example : IsSafe view (serve view request)
serve-IsSafe_example = serve-IsSafe view request
