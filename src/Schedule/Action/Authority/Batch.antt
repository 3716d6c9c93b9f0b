-- ===== src/Schedule/Action/Authority/Batch.antt =====
-- application/src/server/schedule/actions.rs: deletions and renames, power actions and backups.
use cyrogopus.Prelude.{
  String, Bool, true, false, not, Option, List, [], ◌∷◌, ◌≡◌, arith, ◌||◌, inl, inr, Bool-cases,
  Option-cases, none, concat,
}
use cyrogopus.State.{offline, is_state, stopping}
use cyrogopus.Activity.{ActivityEvent}
use cyrogopus.Cap.{PathBuf}
use cyrogopus.Sftp.{is_dir, Metadata}
use cyrogopus.Sftp.Paths.{same_path}
use cyrogopus.Server.Power.{
  ServerPowerAction, start_action, stop_action, restart_action, kill_action,
}
use cyrogopus.Websocket.Handler.{CallResult, succeeded, said, unexpected}
use cyrogopus.Schedule.Action.{
  View, Out, Effect, RenameFile, DeleteFile, join, send_stdin, succeeds, power,
}
use cyrogopus.Schedule.Action.Power.{
  call, after_call, kill_timeout, send_power, send_command, create_backup,
}
use cyrogopus.Schedule.Action.Files.{is_dir_or}
use cyrogopus.Schedule.Action.Batch.{
  delete_each, delete_files, rename_each, rename_files, is_blocked,
}
use cyrogopus.Schedule.Action.Authority.{
  IsVisible, IsAllowed, IsSafe, guard-IsSafe, found-IsSafe, attempt-IsSafe, if-IsSafe,
  finish_task-IsSafe,
}

module _ (v : View) where
  pub delete_each-IsSafe :
      (root : PathBuf) (files : List DeleteFile) (rest : Out)
      → IsSafe v rest
      → IsSafe v (delete_each v root files rest)
  unfolding delete_each
  delete_each-IsSafe root [] rest h = h
  delete_each-IsSafe root ((file, is_directory) ∷ files) rest h =
      let next = delete_each-IsSafe root files rest h in
      if-IsSafe v (same_path (join root file) root) _ _ next
        (elim (Bool-cases (v.is_ignored (join root file) is_directory)) [
          | inl e ↦ rw e next
          | inr e ↦ rw e ((is_directory, e), next)
        ])

  pub delete_files-IsSafe :
      (root : PathBuf) (files : List DeleteFile) → IsSafe v (delete_files v root files)
  unfolding delete_files
  delete_files-IsSafe root files = found-IsSafe v (v.canonicalize root) _ _ (λ path.
      guard-IsSafe v (is_dir_or false (v.symlink_metadata path)) _ _
        (λ a. delete_each-IsSafe path files _ (tt, tt)))

  -- A rename that is not blocked.
  rename-IsVisible :
      (from to : PathBuf) (file : RenameFile) (m : Metadata)
      → is_blocked v from to file m ≡ false
      → IsVisible v from × IsVisible v to
  rename-IsVisible from to file m h = ((is_dir m, ground (arith, h)), (is_dir m, ground (arith, h)))

  pub rename_each-IsSafe :
      (root : PathBuf) (files : List RenameFile) (rest : Out)
      → IsSafe v rest
      → IsSafe v (rename_each v root files rest)
  unfolding rename_each
  rename_each-IsSafe root [] rest h = h
  rename_each-IsSafe root (file ∷ files) rest h =
      let next = rename_each-IsSafe root files rest h in
      if-IsSafe v (same_path (join root file.from) root) _ _ next (
        if-IsSafe v (same_path (join root file.to) root) _ _ next (
          if-IsSafe v (same_path (join root file.from) (join root file.to)) _ _ next
            (elim (Option-cases file.from_metadata) [
              | inl e ↦ rw e next
              | inr (m, e) ↦
                  elim (Bool-cases
                    (is_blocked v (join root file.from) (join root file.to) file m)) [
                      | inl b ↦ rw (e, b) next
                      | inr b ↦ rw (e, b) (rename-IsVisible _ _ file m b, next)
                    ]
            ])))

  pub rename_files-IsSafe :
      (root : PathBuf) (files : List RenameFile) → IsSafe v (rename_files v root files)
  unfolding rename_files
  rename_files-IsSafe root files =
      guard-IsSafe v (is_dir_or true (v.metadata root)) _ _
        (λ a. rename_each-IsSafe root files _ (tt, tt))

  call-IsSafe :
      (e : Effect) (event : ActivityEvent) (message : String)
      → IsAllowed v e
      → IsSafe v (call v e event message)
  call-IsSafe e event message h = answered (v.outcome e)
    where
      answered : (r : CallResult) → IsSafe v (after_call v e event message r)
      answered succeeded = (h, (tt, tt))
      answered (said text) = (h, tt)
      answered unexpected = (h, tt)

  pub send_power-IsSafe : (action : ServerPowerAction) → IsSafe v (send_power v action)
  unfolding send_power
  send_power-IsSafe start_action =
      guard-IsSafe v (is_state v.state offline) _ _
        (λ a. call-IsSafe (power start_action none) _ _ a)
  send_power-IsSafe restart_action =
      guard-IsSafe v (not v.restarting) _ _
        (λ a. call-IsSafe (power restart_action (kill_timeout v)) _ _ (ground (arith, a)))
  send_power-IsSafe stop_action =
      guard-IsSafe v (not (is_state v.state offline || is_state v.state stopping)) _ _ (λ a.
        call-IsSafe (power stop_action (kill_timeout v)) _ _ (ground (arith, a), ground (arith, a)))
  send_power-IsSafe kill_action =
      guard-IsSafe v (not (is_state v.state offline)) _ _
        (λ a. attempt-IsSafe v (power kill_action none) _ _ (ground (arith, a)) (tt, tt))

  pub send_command-IsSafe : (command : String) → IsSafe v (send_command v command)
  unfolding send_command
  send_command-IsSafe command = guard-IsSafe v (not (is_state v.state offline)) _ _ (λ a.
      let up : is_state v.state offline ≡ false = ground (arith, a) in
      if-IsSafe v v.has_stdin _ _
        (if-IsSafe v (succeeds v (send_stdin (concat command "\n"))) _ _ (up, (tt, tt)) (up, tt))
        tt)

  pub create_backup-IsSafe :
      (foreground : Bool) (name : Option String) (ignored : List String)
      → IsSafe v (create_backup v foreground name ignored)
  unfolding create_backup
  create_backup-IsSafe foreground name ignored = (
    tt,
    found-IsSafe v v.backup _ _ (λ b.
        guard-IsSafe v (not (v.has_backup b.1)) _ _
          (λ a. (ground (arith, a), finish_task-IsSafe v foreground _ _))),
  )
