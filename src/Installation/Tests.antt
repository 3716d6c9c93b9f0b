-- ===== src/Installation/Tests.antt =====
-- An installation that fails to run its container, and the return to one.
use cyrogopus.Prelude.{true, false, List, [], ◌∷◌, none, some, ◌≡◌, refl, any, if◌then◌else◌}
use cyrogopus.State
use cyrogopus.Server.{InnerServer, is_locked_state}
use cyrogopus.Installation.Output.{Bytes, last_line, send_output}
use cyrogopus.Installation.Output.Scan.{scan, concat_all, send_output-scan}
use cyrogopus.Installation.Flow.{
  InstallationScript, Container, View, stuck, install_server, attach_install_container, reports,
  is_cleanup, is_created, install_server-unlocks, attach_install_container-stuck,
}

abbrev server : InnerServer
server = record {
  state = State.new;
  suspended = false;
  installing = false;
  restoring = false;
  transferring = false;
  restarting = false;
  stopping = false;
  last_crash = none;
  crash_handled = false;
  has_container = false;
}

abbrev script : InstallationScript
script = record { container_image = "alpine"; entrypoint = "ash"; script = "echo" }

abbrev view : View
view = record {
  started_sent = true;
  completed_sent = true;
  skip_egg_scripts = false;
  script = some script;
  pulls = true;
  configures = true;
  container = some 3;
  runs = false;
}

abbrev containers : List Container
containers = record { is_installer = true; id = some 3; is_running = true } ∷ []

-- "a", a newline and "b", in two parts.
abbrev stream : List Bytes
stream = (97 ∷ 10 ∷ []) ∷ (98 ∷ []) ∷ []

install_server-unlocks_example :
    ((install_server view server none false false).server.installing ≡ server.installing)
    × (reports (install_server view server none false false).effects
        ≡ (if is_locked_state server then 0 else 1))
    × (any is_cleanup (install_server view server none false false).effects
        ≡ any is_created (install_server view server none false false).effects)
install_server-unlocks_example = install_server-unlocks view server none false false refl

attach_install_container-stuck_example :
    ((attach_install_container view server containers script false).end_of_call ≡ stuck)
    × ((attach_install_container view server containers script false).server.installing ≡ false)
    × (reports (attach_install_container view server containers script false).effects ≡ 0)
    × (any is_cleanup (attach_install_container view server containers script false).effects
        ≡ false)
attach_install_container-stuck_example =
    attach_install_container-stuck view server containers script false refl

send_output-scan_example : send_output stream ≡ last_line (scan [] (concat_all stream))
send_output-scan_example = send_output-scan stream
