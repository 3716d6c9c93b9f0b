-- ===== src/Lib.antt =====
-- cyrogopus: the daemon that runs game servers in containers for a panel. This library models the
-- parts of it that decide something: who may do what, when a server starts and stops, and how much
-- of a disk is in use.
--
-- Disk space. `application/src/server/filesystem/usage.rs` keeps a tree of directory sizes
-- (`Usage`; its updates in `Usage.Update`, its removals in `Usage.Remove`, its runs against a table
-- of sizes in `Usage.Sizes`).
-- `application/src/server/filesystem/mod.rs` charges bytes to that tree and to a cached total, and
-- refuses what exceeds the limit (`Filesystem`, `Filesystem.Limit`; removals in
-- `Filesystem.Truncate`).
-- `application/src/server/filesystem/writer.rs` charges what it writes through it, in steps of a
-- megabyte (`Writer`: one call in `Writer.Accounting`, whole lives of a writer in `Writer.Run`); its
-- asynchronous form is `Writer.Async`, poll by poll (`Writer.Async.Balance`, `Writer.Async.Run`, `Writer.Async.Loss`).
-- `application/src/server/filesystem/cap/` keeps every path below the server's directory: the
-- resolution of paths is `Cap` (`Cap.Spelling`), what each operation calls is `Cap.Calls`
-- (`Cap.Confine`, `Cap.Requests`), and the directories are read by `Cap.ReadDir` and walked by
-- `Cap.Walk`, with a fuel of one call more than there are entries.
-- `Io` has the readers of `application/src/io/fixed_reader.rs` (`Io.Fixed`) and
-- `application/src/server/filesystem/archive/multi_reader.rs` (`Io.Multi`).
--
-- Authority. `application/src/server/permissions.rs` has the permissions of a user (`Permissions`,
-- with the JSON names in `Permissions.Names` and the map of users in `Permissions.Users`).
-- `application/src/remote/jwt.rs` validates tokens, denies them, and counts one-time ids (`Jwt`,
-- `Jwt.Denial`, `Jwt.OneTime`). `application/src/server/websocket` holds one token for each socket
-- (`jwt.rs`: `Websocket.Session`) and obeys the messages that the token lets through
-- (`message_handler.rs`: `Websocket.Handler`); what a connection forwards is in
-- `Websocket.Connection` (`handler.rs`).
--
-- Power. `application/src/server/state.rs` has the state of a server and the lock of its power
-- actions (`State`; the interleaving of callers is `State.Race`). `application/src/server/mod.rs`
-- has the power actions (`Server.Power`), and what follows the exit of a container (`Server`,
-- `Server.Crash`). They meet in `Server.Power.Stop`, which follows an action by the exit of the
-- container.
--
-- SSH. `application/src/ssh/auth.rs` lets a client log in and starts its programs (`Ssh`, with the
-- names of logins in `Ssh.Username` and whole sessions in `Ssh.Trust`).
-- `application/src/ssh/sftp.rs` answers the requests of a client (`Sftp`): those that name a
-- path (`Sftp.Paths`), those that make or use a handle (`Sftp.Handles`, `Sftp.Files`) and the
-- extended commands (`Sftp.Extended`). Their calls are held against the permissions of the user in
-- `Sftp.Authority`, their handles counted in `Sftp.Limit`.
--
-- Schedules. `application/src/server/schedule/mod.rs` and `manager.rs` keep the schedules of a
-- server with their triggers (`Schedule`, `Schedule.Update`), evaluate their conditions
-- (`Schedule.Condition`, with what they mean in `Schedule.Condition.Meaning`) and run their actions
-- (`Schedule.Executor`). `schedule/actions.rs` executes one action: `Schedule.Action` has the calls
-- that an action can make and the ways it fails, `Schedule.Action.Power`, `Files`, `Batch` and
-- `Archives` the actions, `Execute` their dispatch, and `Run` a schedule's actions in the executor.
-- What the calls of an action are allowed on is in `Schedule.Action.Authority`.
--
-- Requests of the panel. Of the files of `application/src/routes/api/servers/_server_/files`,
-- `Routes` has delete.rs, rename.rs, create_directory.rs, write.rs and copy.rs, with the calls of the
-- schedule's actions; what these calls are made on is in `Routes.Authority`. chmod.rs, compress.rs,
-- decompress.rs and pull.rs, which change files too, are not modelled.
--
-- Installation. `application/src/server/installation.rs` installs a server in a container
-- (`Installation.Flow`, with the locks that a call holds) and sends the output of the container line
-- by line (`Installation.Output`, against a reader of single bytes in `Installation.Output.Scan`). The
-- loop over a buffer has its length as fuel, since each round takes a byte at least.
--
-- Backups. `application/src/server/backup/manager.rs` keeps the backups that it found and how to find
-- others (`Backup`, with its maps in `Backup.Cache`; its answers against the storage in
-- `Backup.Find`), creates backups (`Backup.Create`) and restores them on a server that it stops
-- before (`Backup.Restore`, which calls `Server.Power`).
--
-- Configuration files. `application/src/server/configuration/process.rs` looks up the placeholders
-- of a server's files and edits JSON documents (`Config`, `Config.Edit`), properties files
-- (`Config.Properties`), ini files (`Config.Ini`), plain files (`Config.Plain`) and XML
-- (`Config.Xml`); `Config.Files` chooses among these and writes the files. The operations of std on
-- texts are in `Config.Text`, on lists of code points.
--
-- Activity. `application/src/server/activity.rs` logs what users do and merges what belongs
-- together (`Activity`, `Activity.Merge`).
--
-- A function of the source has its name here. State is passed and returned; `Result` and `Option`
-- are values; what a call gets from a file, from docker, from the panel, from the disk or from a
-- clock is an argument of the function. Native numbers stand for u64 and usize, and `Prelude.Int`
-- for i64; the conversions and sums that wrap or saturate are written out (`Prelude.Words`). A hash
-- map is an association list, whose order no theorem depends on, and a path is the list of its
-- components. Every function ends by recursion on its data, so that nothing
-- runs on fuel but the callers' loops in `Cap.Walk` and `Cap.ReadDir`, and the loop over the buffer in
-- `Installation.Output`. Awaits
-- inside one call let no other call in, except in `State.Race`, between the polls of `Writer.Async`,
-- and where a stop waits for the
-- container (`Wait`).
--
-- Not modelled: file, network and docker calls; the requests of the panel but for those in `Routes`;
-- the shells of SSH, the archives, the adapters of the backups, the transfers and the limiters of the
-- disk, whose steps are calls of outside programs and libraries; the boot of the servers; the
-- poll-based twins of the readers; logging.
pub mod Prelude
pub mod Usage
pub mod Cap
pub mod Filesystem
pub mod Writer
pub mod Io
pub mod Permissions
pub mod Jwt
pub mod State
pub mod Sftp
pub mod Ssh
pub mod Config
pub mod Backup
pub mod Installation
pub mod Routes
pub mod Server
pub mod Schedule
pub mod Activity
pub mod Websocket
