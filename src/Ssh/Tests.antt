-- ===== src/Ssh/Tests.antt =====
-- A login as `a.0123abcd`, the start of an SFTP session on its server, and one without a login.
use cyrogopus.Prelude.{ℕ, true, false, none, some, List, [], ◌∷◌, ◌≡◌, ◌↔◌, All}
use cyrogopus.Permissions.{file_read}
use cyrogopus.Ssh.{Server, SftpAuth, validate_username}
use cyrogopus.Ssh.Username.{IsLoginName, validate_username-IsLoginName}
use cyrogopus.Ssh.Trust.{
  Event, password, open_channel, subsystem_on, exec_on, run, new, IsGranted, run-IsGranted,
}

abbrev name : List ℕ
name = 97 ∷ 46 ∷ 48 ∷ 49 ∷ 50 ∷ 51 ∷ 97 ∷ 98 ∷ 99 ∷ 100 ∷ []

abbrev servers : List Server
servers = record { uuid = 5; is_locked = false } ∷ []

abbrev answer : SftpAuth
answer = record { user = 2; server = 5; permissions = file_read ∷ [] }

abbrev events : List Event
events =
    open_channel 1
    ∷ exec_on 1
    ∷ password false name servers (some answer)
    ∷ subsystem_on true 1
    ∷ []

validate_username-IsLoginName_example : (validate_username name ≡ true) ↔ IsLoginName name
validate_username-IsLoginName_example = validate_username-IsLoginName name

run-IsGranted_example : let w = run (new, none, []) events in All (IsGranted w.1) w.2
run-IsGranted_example = run-IsGranted events
