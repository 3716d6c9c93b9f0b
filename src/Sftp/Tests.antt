-- ===== src/Sftp/Tests.antt =====
-- Sessions of a user who may do what concerns files, on a server with one file.
use cyrogopus.Prelude.{ℕ, ◌≤◌, true, false, none, some, List, [], ◌∷◌, arith, length}
use cyrogopus.Permissions.{
  Permission, file_read, file_read_content, file_create, file_update, file_delete,
}
use cyrogopus.Cap.{normal, PathBuf}
use cyrogopus.Sftp.{View, Metadata, OpenFlags, regular}
use cyrogopus.Sftp.Handles.{SftpSession, ReadLimits, handle_limit}
use cyrogopus.Sftp.Requests.{Request, to_open, to_write, to_close, to_remove, handle, run}
use cyrogopus.Sftp.Authority.{IsSafe}
use cyrogopus.Sftp.Authority.Commands.{handle-IsSafe}
use cyrogopus.Sftp.Limit.{run-length}

abbrev rights : List Permission
rights = file_read ∷ file_read_content ∷ file_create ∷ file_update ∷ file_delete ∷ []

abbrev log_path : PathBuf
log_path = normal "latest.log" ∷ []

abbrev log_data : Metadata
log_data = record { kind = regular; len = 300 }

abbrev view : View
view = record {
  locked = false;
  read_only = false;
  permissions = some rights;
  files_ignored = λ p d. false;
  nil_ignored = λ p d. false;
  canonicalize = λ p. some log_path;
  read_link = λ p. none;
  symlink_metadata = λ p. some log_data;
  metadata = λ p. some log_data;
  entries = λ p. [];
  succeeds = λ e. true;
}

abbrev session : SftpSession
session = record { handle_id = 0; handles = [] }

abbrev read_limits : ReadLimits
read_limits = record { entry_limit = 10000; send_amount = 500 }

abbrev truncating : OpenFlags
truncating = record {
  read_flag = false;
  write_flag = true;
  append_flag = false;
  create_flag = true;
  truncate_flag = true;
}

abbrev requests : List (View × Request)
requests =
    (view, to_open log_path truncating)
    ∷ (view, to_write 0 0 300)
    ∷ (view, to_close 0)
    ∷ (view, to_remove log_path)
    ∷ []

handle-IsSafe_example :
    IsSafe view (handle view read_limits session (to_open log_path truncating)).1
handle-IsSafe_example = handle-IsSafe view read_limits session (to_open log_path truncating)

run-length_example : length (run read_limits session requests).handles ≤ handle_limit
run-length_example = run-length read_limits requests session (omega arith)

abbrev chunks : List ℕ
chunks = 65536 ∷ 65536 ∷ 100 ∷ []
