-- ===== src/Schedule/Action/Authority/Execute.antt =====
-- application/src/server/schedule/actions.rs: the calls of every action.
use cyrogopus.Prelude.{Bool, true, false, not, ◌≡◌, All, All-mono, refl}
use cyrogopus.Schedule.Action.{
  ScheduleAction, sleep, send_power, send_command, create_backup, create_directory, write_file,
  copy_file, delete_files, rename_files, compress_files, decompress_file, update_startup_variable,
  update_startup_command, update_startup_docker_image, View, guard,
}
use cyrogopus.Schedule.Action.Power.{
  update_startup_variable as variable_out, update_startup_command as command_out,
  update_startup_docker_image as image_out,
}
use cyrogopus.Schedule.Action.Execute.{run, execute}
use cyrogopus.Schedule.Action.Authority.{IsAllowed, IsSafe, attempt-IsSafe}
use cyrogopus.Schedule.Action.Authority.Files
use cyrogopus.Schedule.Action.Authority.Batch

run-IsSafe : (v : View) (action : ScheduleAction) → IsSafe v (run v action)
unfolding run variable_out command_out image_out
run-IsSafe v (sleep duration) = (tt, tt)
run-IsSafe v (send_power ignore action) = Batch.send_power-IsSafe v action
run-IsSafe v (send_command ignore command) = Batch.send_command-IsSafe v command
run-IsSafe v (create_backup ignore foreground name ignored) =
    Batch.create_backup-IsSafe v foreground name ignored
run-IsSafe v (create_directory ignore root name) = Files.create_directory-IsSafe v root name
run-IsSafe v (write_file ignore append file content) = Files.write_file-IsSafe v append file content
run-IsSafe v (copy_file ignore foreground file destination) =
    Files.copy_file-IsSafe v foreground file destination
run-IsSafe v (delete_files root files) = Batch.delete_files-IsSafe v root files
run-IsSafe v (rename_files root files) = Batch.rename_files-IsSafe v root files
run-IsSafe v (compress_files ignore foreground root files format name) =
    Files.compress_files-IsSafe v foreground root files format name
run-IsSafe v (decompress_file ignore foreground root file) =
    Files.decompress_file-IsSafe v foreground root file
run-IsSafe v (update_startup_variable ignore variable value) = attempt-IsSafe v _ _ _ tt tt
run-IsSafe v (update_startup_command ignore command) = attempt-IsSafe v _ _ _ tt tt
run-IsSafe v (update_startup_docker_image ignore image) = attempt-IsSafe v _ _ _ tt tt

-- Each call that an action makes is made on a server that is not locked, and is allowed: a power
-- action in a state that it is meant for, a command to a server that is not offline, a backup that
-- does not exist yet, and a call of the filesystem on paths that are not ignored, as a file or as a
-- directory. The target of a copy or of an extraction, and the files that an archive is made of, are
-- excepted.
pub execute-IsSafe :
    (v : View) (action : ScheduleAction)
    → All (λ e. (v.locked ≡ false) × IsAllowed v e) (execute v action).0
unfolding execute
execute-IsSafe v action = when_unlocked v.locked refl
  where
    when_unlocked :
        (b : Bool)
        → v.locked ≡ b
        → All
            (λ e. (v.locked ≡ false) × IsAllowed v e)
            (guard (not b) "server is in a locked state." (run v action)).0
    when_unlocked true e = tt
    when_unlocked false e =
        All-mono (IsAllowed v) _ (λ c allowed. (e, allowed)) _ (run-IsSafe v action)
