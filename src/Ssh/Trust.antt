-- ===== src/Ssh/Trust.antt =====
-- application/src/ssh/auth.rs: whole sessions of a client, and whom their programs run for.
use cyrogopus.Prelude.{
  ℕ, Bool, true, false, Option, none, some, List, [], ◌∷◌, ◌≡◌, refl, if◌then◌else◌, All, arith,
  inl, inr, Bool-cases, sym, ap, ◌∙◌, ◌||◌, not,
}
use mathlib.Core.Option.{some-injective}
use cyrogopus.Ssh.{
  Server, SftpAuth, SshSession, Auth, Grant, find, admit, login, validate_username, auth_password,
  auth_publickey, channel_open_session, channel_eof, Program, shell, exec, sftp, Started, start_on,
  start, add_shell, shell_request, exec_request, subsystem_request, contains,
}

-- What reaches the session. A client that is accepted sends no login any more: the protocol
-- ignores it.
pub data Event : Type 0 where
  password : Bool → List ℕ → List Server → Option SftpAuth → Event
  publickey : List ℕ → List Server → Option SftpAuth → Event
  open_channel eof_channel exec_on : ℕ → Event
  shell_on subsystem_on : Bool → ℕ → Event

-- A session, what it was granted, and the programs that it started, the last first.
abbrev pub World : Type 0
World = SshSession × Grant × List Started

abbrev pub logged_in : World → SshSession × Auth × Grant → World
logged_in (s, g, xs) (t, a, h) = (t, h, xs)

abbrev pub add_started : World → SshSession × Option Started → World
add_started (s, g, xs) (t, none) = (t, g, xs)
add_started (s, g, xs) (t, some x) = (t, g, x ∷ xs)

abbrev pub with_login : World → (SshSession → SshSession × Auth × Grant) → World
with_login (s, none, xs) k = logged_in (s, none, xs) (k s)
with_login (s, some g, xs) k = (s, some g, xs)

abbrev pub step : World → Event → World
step w (password disabled name servers answer) =
    with_login w (λ s. auth_password disabled s name servers answer)
step w (publickey name servers answer) = with_login w (λ s. auth_publickey s name servers answer)
step (s, g, xs) (open_channel c) = (channel_open_session s c, g, xs)
step (s, g, xs) (eof_channel c) = (channel_eof s c, g, xs)
step (s, g, xs) (exec_on c) = add_started (s, g, xs) (exec_request s c)
step (s, g, xs) (shell_on enabled c) = add_started (s, g, xs) (shell_request enabled s c)
step (s, g, xs) (subsystem_on is_sftp c) = add_started (s, g, xs) (subsystem_request is_sftp s c)

abbrev pub run : World → List Event → World
run w [] = w
run w (e ∷ es) = run (step w e) es

-- A program runs for the user and on the server of the login that was accepted.
abbrev pub IsGranted : Grant → Started → Type 0
IsGranted none x = ⊥
IsGranted (some g) x = (x.on_server ≡ g.server) × (x.for_user ≡ g.user)

-- The session holds what was granted, and no server without a grant.
abbrev pub Holds : Grant → SshSession → Type 0
Holds none s = s.server ≡ none
Holds (some g) s = (s.server ≡ some g.server) × (s.user_uuid ≡ some g.user)

abbrev pub IsTrusted : World → Type 0
IsTrusted (s, g, xs) = Holds g s × All (IsGranted g) xs

find-uuid : (u : ℕ) (servers : List Server) (x : Server) → find u servers ≡ some x → x.uuid ≡ u
unfolding find
find-uuid u [] x h = ground arith
find-uuid u (s ∷ ss) x h = ground (arith, find-uuid u ss x)

Holds-admit :
    (s : SshSession) (a : SftpAuth) (servers : List Server) (o : Option Server)
    → find a.server servers ≡ o
    → s.user_uuid ≡ some a.user
    → s.server ≡ none
    → let r = admit s a o in Holds r.2 r.0
Holds-admit s a servers none e u h = h
Holds-admit s a servers (some x) e u h = elim (Bool-cases x.is_locked) [
  | inl l ↦ rw l h
  | inr l ↦ rw l (ap some (find-uuid a.server servers x e), u)
]

Holds-login :
    (s : SshSession) (servers : List Server) (answer : Option SftpAuth)
    → s.server ≡ none
    → let r = login s servers answer in Holds r.2 r.0
Holds-login s servers none h = h
Holds-login s servers (some a) h =
    Holds-admit (record s { user_uuid = some a.user }) a servers (find a.server servers) refl refl h

Holds-auth_password :
    (disabled : Bool) (s : SshSession) (name : List ℕ) (servers : List Server)
    (answer : Option SftpAuth)
    → s.server ≡ none
    → let r = auth_password disabled s name servers answer in Holds r.2 r.0
unfolding auth_password
Holds-auth_password disabled s name servers answer h =
    elim (Bool-cases (disabled || not (validate_username name))) [
      | inl e ↦ rw e h
      | inr e ↦ rw e (Holds-login s servers answer h)
    ]

Holds-auth_publickey :
    (s : SshSession) (name : List ℕ) (servers : List Server) (answer : Option SftpAuth)
    → s.server ≡ none
    → let r = auth_publickey s name servers answer in Holds r.2 r.0
unfolding auth_publickey
Holds-auth_publickey s name servers answer h = elim (Bool-cases (validate_username name)) [
  | inl e ↦ rw e (Holds-login s servers answer h)
  | inr e ↦ rw e h
]

-- What a request does: it keeps the server and the user, and what it starts is granted.
abbrev IsKept : Grant → SshSession × Option Started → Type 0
IsKept g (s, none) = Holds g s
IsKept g (s, some x) = Holds g s × IsGranted g x

Holds-same :
    (g : Grant) (s t : SshSession)
    → t.server ≡ s.server
    → t.user_uuid ≡ s.user_uuid
    → Holds g s
    → Holds g t
Holds-same none s t e u h = e ∙ h
Holds-same (some a) s t e u h = (e ∙ h.0, u ∙ h.1)

IsGranted-Holds :
    (g : Grant) (s : SshSession) (x : Started)
    → Holds g s
    → s.server ≡ some x.on_server
    → s.user_uuid ≡ some x.for_user
    → IsGranted g x
IsGranted-Holds none s x h e u = absurd (ground (arith, h, e))
IsGranted-Holds (some a) s x h e u =
    (some-injective _ _ (sym e ∙ h.0), some-injective _ _ (sym u ∙ h.1))

IsKept-start_on :
    (g : Grant) (s : SshSession) (p : Program) (c : ℕ) (u v : Option ℕ)
    → s.user_uuid ≡ u
    → s.server ≡ v
    → Holds g s
    → IsKept g (start_on s p c u v)
IsKept-start_on g s p c none v eu ev h = h
IsKept-start_on g s p c (some u) none eu ev h = h
IsKept-start_on g s p c (some u) (some v) eu ev h = elim (Bool-cases (contains c s.clients)) [
  | inl e ↦ rw e (Holds-same g s _ refl refl h, IsGranted-Holds g s _ h ev eu)
  | inr e ↦ rw e h
]

IsKept-start :
    (g : Grant) (s : SshSession) (p : Program) (c : ℕ) → Holds g s → IsKept g (start s p c)
IsKept-start g s p c h = IsKept-start_on g s p c s.user_uuid s.server refl refl h

IsKept-add_shell :
    (g : Grant) (c : ℕ) (r : SshSession × Option Started) → IsKept g r → IsKept g (add_shell c r)
IsKept-add_shell g c (s, none) k = k
IsKept-add_shell g c (s, some x) k = (Holds-same g s _ refl refl k.0, k.1)

IsKept-if :
    (g : Grant) (b : Bool) (r t : SshSession × Option Started)
    → IsKept g r
    → IsKept g t
    → IsKept g (if b then r else t)
IsKept-if g true r t h k = h
IsKept-if g false r t h k = k

IsTrusted-add_started :
    (s : SshSession) (g : Grant) (xs : List Started) (r : SshSession × Option Started)
    → IsTrusted (s, g, xs)
    → IsKept g r
    → IsTrusted (add_started (s, g, xs) r)
IsTrusted-add_started s g xs (t, none) k h = (h, k.1)
IsTrusted-add_started s g xs (t, some x) k h = (h.0, (h.1, k.1))

-- Without a grant nothing was started.
none_started : (g : Grant) (xs : List Started) → All (IsGranted none) xs → All (IsGranted g) xs
none_started g [] h = tt
none_started g (x ∷ xs) h = absurd h.0

IsTrusted-logged_in :
    (s : SshSession) (xs : List Started) (r : SshSession × Auth × Grant)
    → All (IsGranted none) xs
    → Holds r.2 r.0
    → IsTrusted (logged_in (s, none, xs) r)
IsTrusted-logged_in s xs (t, a, g) h k = (k, none_started g xs h)

IsTrusted-step : (w : World) (e : Event) → IsTrusted w → IsTrusted (step w e)
unfolding exec_request shell_request subsystem_request channel_open_session channel_eof
IsTrusted-step (s, none, xs) (password d name servers answer) k =
    IsTrusted-logged_in s xs (auth_password d s name servers answer) k.1
      (Holds-auth_password d s name servers answer k.0)
IsTrusted-step (s, some g, xs) (password d name servers answer) k = k
IsTrusted-step (s, none, xs) (publickey name servers answer) k =
    IsTrusted-logged_in s xs (auth_publickey s name servers answer) k.1
      (Holds-auth_publickey s name servers answer k.0)
IsTrusted-step (s, some g, xs) (publickey name servers answer) k = k
IsTrusted-step (s, g, xs) (open_channel c) k =
    (Holds-same g s (channel_open_session s c) refl refl k.0, k.1)
IsTrusted-step (s, g, xs) (eof_channel c) k = (Holds-same g s (channel_eof s c) refl refl k.0, k.1)
IsTrusted-step (s, g, xs) (exec_on c) k =
    IsTrusted-add_started s g xs (exec_request s c) k (IsKept-start g s exec c k.0)
IsTrusted-step (s, g, xs) (shell_on enabled c) k =
    IsTrusted-add_started s g xs (shell_request enabled s c) k (
      IsKept-if g enabled _ (s, none)
        (IsKept-add_shell g c (start s shell c) (IsKept-start g s shell c k.0)) k.0)
IsTrusted-step (s, g, xs) (subsystem_on is_sftp c) k =
    IsTrusted-add_started s g xs (subsystem_request is_sftp s c) k
      (IsKept-if g is_sftp _ (s, none) (IsKept-start g s sftp c k.0) k.0)

IsTrusted-run : (es : List Event) (w : World) → IsTrusted w → IsTrusted (run w es)
IsTrusted-run [] w k = k
IsTrusted-run (e ∷ es) w k = IsTrusted-run es (step w e) (IsTrusted-step w e k)

-- A session before its client sends anything.
abbrev pub new : SshSession
new = record { server = none; user_uuid = none; clients = []; shell_clients = [] }

-- Whatever a client sends, with whatever answers of the panel, in any order: every shell, command
-- and SFTP session that was started runs on the server and for the user of the one login that was
-- accepted, and none is started where no login was.
pub run-IsGranted : (es : List Event) → let w = run (new, none, []) es in All (IsGranted w.1) w.2
run-IsGranted es = (IsTrusted-run es (new, none, []) (refl, tt)).1
