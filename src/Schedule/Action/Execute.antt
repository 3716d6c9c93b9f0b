-- ===== src/Schedule/Action/Execute.antt =====
-- application/src/server/schedule/actions.rs: the execution of an action, and of the actions of a
-- schedule in turn.
use cyrogopus.Prelude.{not}
use cyrogopus.Schedule.Action.{
  ScheduleAction, sleep, send_power, send_command, create_backup, create_directory, write_file,
  copy_file, delete_files, rename_files, compress_files, decompress_file, update_startup_variable,
  update_startup_command, update_startup_docker_image, View, Out, sleep_for, success, then_out,
  guard,
}
use cyrogopus.Schedule.Action.Power
use cyrogopus.Schedule.Action.Files
use cyrogopus.Schedule.Action.Batch
use cyrogopus.Schedule.Action.Archives

-- The arms of the match.
unfoldable pub run : View → ScheduleAction → Out
run v (sleep duration) = then_out (sleep_for duration) success
run v (send_power ignore action) = Power.send_power v action
run v (send_command ignore command) = Power.send_command v command
run v (create_backup ignore foreground name ignored) = Power.create_backup v foreground name ignored
run v (create_directory ignore root name) = Files.create_directory v root name
run v (write_file ignore append file content) = Files.write_file v append file content
run v (copy_file ignore foreground file destination) = Files.copy_file v foreground file destination
run v (delete_files root files) = Batch.delete_files v root files
run v (rename_files root files) = Batch.rename_files v root files
run v (compress_files ignore foreground root files format name) =
    Archives.compress_files v foreground root files format name
run v (decompress_file ignore foreground root file) =
    Archives.decompress_file v foreground root file
run v (update_startup_variable ignore variable value) =
    Power.update_startup_variable v variable value
run v (update_startup_command ignore command) = Power.update_startup_command v command
run v (update_startup_docker_image ignore image) = Power.update_startup_docker_image v image

unfoldable pub execute : View → ScheduleAction → Out
execute v action = guard (not v.locked) "server is in a locked state." (run v action)
