-- ===== src/Installation/Flow.antt =====
-- application/src/server/installation.rs: the installation of a server, and the return to one that
-- was running when the daemon ended. What docker, the panel and the websocket answer is given to a
-- call, which gives back the server, its calls and how it ends. The contents of the container's
-- configuration and of the log are left out.
use cyrogopus.Prelude.{
  ℕ, suc, String, Bool, true, false, not, ◌&&◌, List, [], ◌∷◌, ◌++◌, Option, none, some, ◌≡◌, refl,
  arith, any, str_eq, if◌then◌else◌, Option-cases, inl, inr,
}
use cyrogopus.Server.{InnerServer, is_locked_state}

pub record InstallationScript : Type 0 where
  pub container_image : String
  pub entrypoint : String
  pub script : String

pub data Effect : Type 0 where
  send_started log_daemon remove_tmp send_completed : Effect
  pull_image : String → Effect
  created_container run_container remove_container : ℕ → Effect
  cleanup_container : ℕ → InstallationScript → Effect
  set_server_install : Bool → Bool → Effect

-- How a call ends: it returns, with or without an error, or waits for a lock that it holds itself.
pub data End : Type 0 where
  returned : Bool → End
  stuck : End

-- `installation_script` is the field of the server that is written to the disk.
pub record Installed : Type 0 where
  pub server : InnerServer
  pub installation_script : Option (Bool × InstallationScript)
  pub effects : List Effect
  pub end_of_call : End

-- `container` is the id that docker gives, where it creates the container; `runs` is whether the
-- container could be run and its output ended in time.
pub record View : Type 0 where
  pub started_sent : Bool
  pub completed_sent : Bool
  pub skip_egg_scripts : Bool
  pub script : Option InstallationScript
  pub pulls : Bool
  pub configures : Bool
  pub container : Option ℕ
  pub runs : Bool

abbrev pub no_script : InstallationScript
no_script = record { container_image = ""; entrypoint = ""; script = "" }

abbrev cleanup : Option ℕ → InstallationScript → List Effect
cleanup none script = []
cleanup (some id) script = cleanup_container id script ∷ []

-- The mutex of the container's id: its value, and whether there is a guard of it. The task that runs
-- the call is the only one that locks it, so that a wait for its own guard does not end.
pub record IdLock : Type 0 where
  pub id : Option ℕ
  pub is_held : Bool

abbrev pub unlocked : IdLock
unlocked = record { id = none; is_held = false }

-- The mutex under a guard that is kept, or `none` for a wait that does not end.
abbrev pub lock : IdLock → Option IdLock
lock l = if l.is_held then none else some (record l { is_held = true })

-- A guard that is dropped at the end of its statement, which stores an id or takes it.
abbrev pub store : ℕ → IdLock → IdLock
store id l = record l { id = some id }

-- The closure of both functions, with the mutex as the caller has it, and what the caller returns
-- after it.
abbrev pub unset_installing :
    View → IdLock → Bool → InnerServer → InstallationScript → List Effect → Bool → Bool → Installed
unset_installing v l reinstall s script before successful is_ok = elim (lock l) [
  | none ↦ record {
    server = record s { installing = false };
    installation_script = none;
    effects = before;
    end_of_call = stuck;
  }
  | some guard ↦ record {
    server = record s { installing = false };
    installation_script = none;
    effects =
        before
        ++ cleanup guard.id script
        ++ remove_tmp ∷ set_server_install successful reinstall ∷ send_completed ∷ [];
    end_of_call = returned (v.completed_sent && is_ok);
  }
]

-- From the pull of the image on.
abbrev pub install_with : View → Bool → InnerServer → List Effect → InstallationScript → Installed
install_with v reinstall s before script =
    let pulled = before ++ pull_image script.container_image ∷ [] in
    if not v.pulls
    then unset_installing v unlocked reinstall s script pulled false false
    else if not v.configures
    then unset_installing v unlocked reinstall s script pulled false false
    else elim (v.container) [
      | none ↦ unset_installing v unlocked reinstall s script pulled false false
      | some id ↦
          unset_installing v (store id unlocked) reinstall s script
            (pulled ++ created_container id ∷ run_container id ∷ []) v.runs v.runs
    ]

unfoldable pub install_server :
    View → InnerServer → Option (Bool × InstallationScript) → Bool → Bool → Installed
install_server v server installation_script reinstall force =
    let s = record server { installing = true } in
    let before = send_started ∷ log_daemon ∷ [] in
    if is_locked_state server
    then record {
      server = server;
      installation_script = installation_script;
      effects = [];
      end_of_call = returned false;
    }
    else if not v.started_sent
    then record {
      server = s;
      installation_script = installation_script;
      effects = send_started ∷ [];
      end_of_call = returned false;
    }
    else if v.skip_egg_scripts && not force
    then unset_installing v unlocked reinstall s no_script before true true
    else elim (v.script) [
      | none ↦ unset_installing v unlocked reinstall s no_script before false false
      | some script ↦
          if str_eq script.script ""
          then unset_installing v unlocked reinstall s no_script before true true
          else install_with v reinstall s before script
    ]

-- A container of the server: whether it is named as the installer, its id, whether it runs.
pub record Container : Type 0 where
  pub is_installer : Bool
  pub id : Option ℕ
  pub is_running : Bool

-- The loop over the containers: the mutex with the one to attach to, and the removals.
unfoldable pub find_container : IdLock → List Container → IdLock × List Effect
find_container kept [] = (kept, [])
find_container kept (c ∷ cs) =
    let rest = find_container kept cs in
    if not c.is_installer then rest else elim (c.id) [
      | none ↦ rest
      | some id ↦
          let removed = find_container kept cs in
          if c.is_running
          then find_container (store id kept) cs
          else (removed.0, remove_container id ∷ removed.1)
    ]

-- The guard of the id's lock is bound before the branches and lives to the end of the function.
unfoldable pub attach_install_container :
    View → InnerServer → List Container → InstallationScript → Bool → Installed
attach_install_container v server containers script reinstall =
    let s = record server { installing = true } in
    let kept = find_container unlocked containers in
    let before = send_started ∷ kept.1 in
    if not v.started_sent
    then record {
      server = s;
      installation_script = some (reinstall, script);
      effects = send_started ∷ [];
      end_of_call = returned false;
    }
    else elim (lock kept.0) [
      | none ↦ record {
        server = s;
        installation_script = some (reinstall, script);
        effects = before;
        end_of_call = stuck;
      }
      | some guard ↦ elim (guard.id) [
        | none ↦ unset_installing v guard reinstall s script before true true
        | some id ↦
            unset_installing v guard reinstall s script (before ++ run_container id ∷ []) v.runs
              v.runs
      ]
    ]

abbrev pub is_report : Effect → Bool
is_report (set_server_install successful reinstall) = true
is_report _ = false

abbrev pub reports : List Effect → ℕ
reports [] = 0
reports (e ∷ es) = if is_report e then suc (reports es) else reports es

abbrev pub is_cleanup : Effect → Bool
is_cleanup (cleanup_container id script) = true
is_cleanup _ = false

abbrev pub is_created : Effect → Bool
is_created (created_container id) = true
is_created _ = false

-- An installation whose start the websocket takes leaves the flag that locks the server as it was,
-- whatever fails in between; it tells the panel of its outcome once, but not for a locked server,
-- and it cleans a container up exactly if one was created.
pub install_server-unlocks :
    (v : View) (s : InnerServer) (installation_script : Option (Bool × InstallationScript))
    (reinstall force : Bool)
    → v.started_sent ≡ true
    → ((install_server v s installation_script reinstall force).server.installing ≡ s.installing)
      × (reports (install_server v s installation_script reinstall force).effects
          ≡ (if is_locked_state s then 0 else 1))
      × (any is_cleanup (install_server v s installation_script reinstall force).effects
          ≡ any is_created (install_server v s installation_script reinstall force).effects)
unfolding install_server is_locked_state
install_server-unlocks v s installation_script reinstall force h = elim (Option-cases v.script) [
  | inl e ↦ ground (arith, h, e)
  | inr (script, e) ↦ elim (Option-cases v.container) [
    | inl f ↦ ground (arith, h, e, f)
    | inr (id, f) ↦ ground (arith, h, e, f)
  ]
]

-- The loop leaves the mutex without a guard, and makes no report and no cleanup.
find_container-free :
    (kept : IdLock) (containers : List Container)
    → ((find_container kept containers).0.is_held ≡ kept.is_held)
      × (reports (find_container kept containers).1 ≡ 0)
      × (any is_cleanup (find_container kept containers).1 ≡ false)
unfolding find_container
find_container-free kept [] = (refl, refl, refl)
find_container-free kept (c ∷ cs) = elim (Option-cases c.id) [
  | inl e ↦ ground (arith, e, find_container-free kept cs)
  | inr (id, e) ↦
      ground (arith, e, find_container-free kept cs, find_container-free (store id kept) cs)
]

reports-append : (xs : List Effect) (id : ℕ) → reports (xs ++ run_container id ∷ []) ≡ reports xs
reports-append [] id = refl
reports-append (x ∷ xs) id = ground (arith, reports-append xs id)

any-append :
    (xs : List Effect) (id : ℕ) → any is_cleanup (xs ++ run_container id ∷ []) ≡ any is_cleanup xs
any-append [] id = refl
any-append (x ∷ xs) id = ground (arith, any-append xs id)

-- The return to an installation never ends, once the websocket takes its start: the closure that
-- ends it waits for a mutex whose guard its caller still has. The server is shown as installed then,
-- but the panel is not told of an outcome and the container is not cleaned up.
pub attach_install_container-stuck :
    (v : View) (s : InnerServer) (containers : List Container) (script : InstallationScript)
    (reinstall : Bool)
    → v.started_sent ≡ true
    → ((attach_install_container v s containers script reinstall).end_of_call ≡ stuck)
      × ((attach_install_container v s containers script reinstall).server.installing ≡ false)
      × (reports (attach_install_container v s containers script reinstall).effects ≡ 0)
      × (any is_cleanup (attach_install_container v s containers script reinstall).effects ≡ false)
unfolding attach_install_container
attach_install_container-stuck v s containers script reinstall h =
    let free = find_container-free unlocked containers in
    elim (Option-cases (find_container unlocked containers).0.id) [
      | inl e ↦ ground (arith, h, e, free)
      | inr (id, e) ↦ ground (
        arith,
        h,
        e,
        free,
        reports-append (find_container unlocked containers).1 id,
        any-append (find_container unlocked containers).1 id,
      )
    ]
