-- ===== src/Schedule/Action.antt =====
-- application/src/server/schedule/actions.rs: the execution of one action of a schedule. An action
-- runs in one view of the server: its state, its settings and what the filesystem and the panel
-- answer. It gives back the calls that it makes, in order, and the text of its error, `none` for
-- success. The calls of a task that it starts stand where it is started. What a log entry says
-- besides its event is left out.
pub mod Power
pub mod Files
pub mod Batch
pub mod Archives
pub mod Execute
pub mod Authority
pub mod Run
mod Tests
use cyrogopus.Prelude.{
  ℕ, String, Bool, true, false, ◌&&◌, Option, none, some, List, [], ◌∷◌, if◌then◌else◌, ltb,
}
use cyrogopus.Prelude.Int.{ℤ}
use cyrogopus.Activity.{ActivityEvent}
use cyrogopus.State.{ServerState}
use cyrogopus.Server.Power.{ServerPowerAction}
use cyrogopus.Websocket.Handler.{CallResult, succeeded, said, unexpected}
use cyrogopus.Cap.{PathBuf, push, next_back, pop, root_dir}
use cyrogopus.Sftp.{Metadata}

pub data ArchiveFormat : Type 0 where
  tar_archive tar_gz tar_xz tar_bz2 tar_lz4 tar_zstd zip_archive seven_zip : ArchiveFormat

-- application/src/io/compression/mod.rs.
pub data CompressionType : Type 0 where
  uncompressed gz xz bz2 lz4 zstd : CompressionType

-- A file to rename, and what the filesystem answers when the loop comes to it: the metadata of the
-- first path, and whether the second one has any.
pub record RenameFile : Type 0 where
  pub from : PathBuf
  pub to : PathBuf
  pub from_metadata : Option Metadata
  pub to_exists : Bool

-- A file to delete, and whether it is a directory when the loop comes to it.
abbrev pub DeleteFile : Type 0
DeleteFile = PathBuf × Bool

-- The flags are `ignore_failure` and `foreground`, or `append`, in the source's order.
pub data ScheduleAction : Type 0 where
  sleep : ℕ → ScheduleAction
  send_power : Bool → ServerPowerAction → ScheduleAction
  send_command : Bool → String → ScheduleAction
  create_backup : Bool → Bool → Option String → List String → ScheduleAction
  create_directory : Bool → PathBuf → PathBuf → ScheduleAction
  write_file : Bool → Bool → PathBuf → List ℕ → ScheduleAction
  copy_file : Bool → Bool → PathBuf → PathBuf → ScheduleAction
  delete_files : PathBuf → List DeleteFile → ScheduleAction
  rename_files : PathBuf → List RenameFile → ScheduleAction
  compress_files : Bool → Bool → PathBuf → List PathBuf → ArchiveFormat → PathBuf → ScheduleAction
  decompress_file : Bool → Bool → PathBuf → PathBuf → ScheduleAction
  update_startup_variable : Bool → String → String → ScheduleAction
  update_startup_command update_startup_docker_image : Bool → String → ScheduleAction

unfoldable pub ignore_failure : ScheduleAction → Bool
ignore_failure (sleep duration) = false
ignore_failure (send_power ignore action) = ignore
ignore_failure (send_command ignore command) = ignore
ignore_failure (create_backup ignore foreground name ignored) = ignore
ignore_failure (create_directory ignore root name) = ignore
ignore_failure (write_file ignore append file content) = ignore
ignore_failure (copy_file ignore foreground file destination) = ignore
ignore_failure (delete_files root files) = false
ignore_failure (rename_files root files) = false
ignore_failure (compress_files ignore foreground root files format name) = ignore
ignore_failure (decompress_file ignore foreground root file) = ignore
ignore_failure (update_startup_variable ignore variable value) = ignore
ignore_failure (update_startup_command ignore command) = ignore
ignore_failure (update_startup_docker_image ignore image) = ignore

-- The calls. A power action comes with its kill timeout, where it has one; an archive with its path,
-- its root, its files, the compression and the level, and for a tar the threads.
pub data Effect : Type 0 where
  sleep_for : ℕ → Effect
  power : ServerPowerAction → Option ℕ → Effect
  send_stdin : String → Effect
  request_backup : Option String → List String → Effect
  run_backup : ℕ → ℕ → List String → Effect
  create_dir_all chown_path flush_file sync_file truncate_path create_writer : PathBuf → Effect
  open_archive : PathBuf → Effect
  allocate : PathBuf → ℤ → Effect
  open_with : PathBuf → Bool → Effect
  write_all : PathBuf → List ℕ → Effect
  copy rename_path extract : PathBuf → PathBuf → Effect
  create_tar : PathBuf → PathBuf → List PathBuf → CompressionType → ℕ → ℕ → Effect
  create_zip : PathBuf → PathBuf → List PathBuf → ℕ → Effect
  create_7z : PathBuf → PathBuf → List PathBuf → Effect
  set_variable : String → String → Effect
  set_command set_docker_image : String → Effect
  log_activity : ActivityEvent → Effect

abbrev pub Out : Type 0
Out = List Effect × Option String

-- `is_ignored` is the filesystem's; `backup` is the adapter and the uuid that the panel answers
-- with, and `has_backup` the manager's `fast_contains`. `outcome` is what a call returns.
pub record View : Type 0 where
  pub locked : Bool
  pub state : Option ServerState
  pub restarting : Bool
  pub auto_kill_enabled : Bool
  pub auto_kill_seconds : ℕ
  pub has_stdin : Bool
  pub make_ascii_lowercase : String → String
  pub backup : Option (ℕ × ℕ)
  pub has_backup : ℕ → Bool
  pub canonicalize : PathBuf → Option PathBuf
  pub metadata : PathBuf → Option Metadata
  pub symlink_metadata : PathBuf → Option Metadata
  pub is_ignored : PathBuf → Bool → Bool
  pub compression_level : ℕ
  pub file_compression_threads : ℕ
  pub outcome : Effect → CallResult

abbrev pub is_success : CallResult → Bool
is_success succeeded = true
is_success _ = false

abbrev pub succeeds : View → Effect → Bool
succeeds v e = is_success (v.outcome e)

-- `return Err(text)`, and the ways to it: a test, a missing answer, a call that fails.
abbrev pub refuse : String → Out
refuse message = ([], some message)

abbrev pub success : Out
success = ([], none)

abbrev pub then_out : Effect → Out → Out
then_out e rest = (e ∷ rest.0, rest.1)

abbrev pub guard : Bool → String → Out → Out
guard b message rest = if b then rest else refuse message

abbrev pub found {ℓ} : {A : Type ℓ} → Option A → String → (A → Out) → Out
found none message k = refuse message
found (some a) message k = k a

abbrev pub attempt : View → Effect → String → Out → Out
attempt v e message rest = if succeeds v e then then_out e rest else (e ∷ [], some message)

-- The end of an action with a task of its own: the task's error counts in the foreground only.
abbrev pub finish_task : Bool → Bool → String → Out
finish_task foreground done message =
    if foreground then (if done then success else refuse message) else success

-- Path::join and Path::parent.
abbrev pub join : PathBuf → PathBuf → PathBuf
join p [] = p
join p (c ∷ q) = join (push p c) q

abbrev pub parent : PathBuf → Option PathBuf
parent p = elim (next_back p) [ none ↦ none | some root_dir ↦ none | some c ↦ some (pop p) ]
