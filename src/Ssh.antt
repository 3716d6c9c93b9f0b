-- ===== src/Ssh.antt =====
-- application/src/ssh/auth.rs: the session of an SSH client, from its authentication to the
-- programs that it starts. A name is the list of the codes of its bytes; the panel's answer to a
-- login, the servers of the node and their locks are given to each call. Channels and uuids are
-- numbers, and the calls of the protocol library on a channel succeed.
pub mod Username
pub mod Trust
mod Tests
use cyrogopus.Prelude.{
  ℕ, suc, Bool, true, false, not, ◌&&◌, ◌||◌, Option, none, some, List, [], ◌∷◌, ◌==◌, leb, ltb,
  all, any, length, if◌then◌else◌, is_some,
}
use cyrogopus.Permissions.{Permission}

-- '.'.
abbrev pub dot : ℕ
dot = 46

abbrev pub between : ℕ → ℕ → ℕ → Bool
between a b c = leb a c && leb c b

-- is_ascii_hexdigit: a digit, or a letter from a to f.
abbrev pub is_ascii_hexdigit : ℕ → Bool
is_ascii_hexdigit c = between 48 57 c || (between 65 70 c || between 97 102 c)

abbrev pub cons_byte : ℕ → List (List ℕ) → List (List ℕ)
cons_byte c [] = (c ∷ []) ∷ []
cons_byte c (part ∷ parts) = (c ∷ part) ∷ parts

-- `split('.')`.
unfoldable pub split : List ℕ → List (List ℕ)
split [] = [] ∷ []
split (c ∷ cs) = let rest = split cs in if c == dot then [] ∷ rest else cons_byte c rest

unfoldable pub last : List (List ℕ) → Option (List ℕ)
last [] = none
last (x ∷ []) = some x
last (x ∷ y ∷ xs) = last (y ∷ xs)

abbrev pub is_server_name : Option (List ℕ) → Bool
is_server_name none = false
is_server_name (some server) = (length server == 8) && all is_ascii_hexdigit server

unfoldable pub validate_username : List ℕ → Bool
unfolding split last
validate_username username =
    not (ltb (length (split username)) 2) && is_server_name (last (split username))

-- A server of the node, and whether it is locked.
pub record Server : Type 0 where
  pub uuid : ℕ
  pub is_locked : Bool

-- The panel's answer to a login: the user, the server and the permissions.
pub record SftpAuth : Type 0 where
  pub user : ℕ
  pub server : ℕ
  pub permissions : List Permission

-- The channels are the ids of `clients`.
pub record SshSession : Type 0 where
  pub server : Option ℕ
  pub user_uuid : Option ℕ
  pub clients : List ℕ
  pub shell_clients : List ℕ

pub data Auth : Type 0 where
  accept reject : Auth

-- The permissions that a login sets for a user on a server.
abbrev pub Grant : Type 0
Grant = Option SftpAuth

unfoldable pub find : ℕ → List Server → Option Server
find u [] = none
find u (s ∷ ss) = if s.uuid == u then some s else find u ss

-- The end of both logins: the server is looked up, must not be locked, and gets the permissions.
abbrev pub admit : SshSession → SftpAuth → Option Server → SshSession × Auth × Grant
admit s a none = (s, reject, none)
admit s a (some server) =
    if server.is_locked
    then (s, reject, none)
    else (record s { server = some server.uuid }, accept, some a)

abbrev pub login : SshSession → List Server → Option SftpAuth → SshSession × Auth × Grant
login s servers none = (s, reject, none)
login s servers (some a) = admit (record s { user_uuid = some a.user }) a (find a.server servers)

abbrev pub auth_none : SshSession → SshSession × Auth × Grant
auth_none s = (s, reject, none)

-- `answer` is what the panel says, asked with the name and the password.
unfoldable pub auth_password :
    Bool → SshSession → List ℕ → List Server → Option SftpAuth → SshSession × Auth × Grant
auth_password disabled s username servers answer =
    if disabled || not (validate_username username)
    then (s, reject, none)
    else login s servers answer

unfoldable pub auth_publickey :
    SshSession → List ℕ → List Server → Option SftpAuth → SshSession × Auth × Grant
auth_publickey s username servers answer =
    if validate_username username then login s servers answer else (s, reject, none)

-- HashMap::insert and remove of a channel, and `retain`.
unfoldable pub without : ℕ → List ℕ → List ℕ
without c [] = []
without c (d ∷ ds) = let rest = without c ds in if d == c then rest else d ∷ rest

abbrev pub contains : ℕ → List ℕ → Bool
contains c ds = any (λ d. d == c) ds

unfoldable pub channel_open_session : SshSession → ℕ → SshSession
channel_open_session s c = record s { clients = c ∷ without c s.clients }

unfoldable pub channel_eof : SshSession → ℕ → SshSession
channel_eof s c = record s {
  clients = without c s.clients;
  shell_clients = without c s.shell_clients;
}

pub data Program : Type 0 where
  shell exec sftp : Program

-- What a request starts: a program on a channel, for a user on a server.
pub record Started : Type 0 where
  pub program : Program
  pub channel : ℕ
  pub on_server : ℕ
  pub for_user : ℕ

-- The three tests of the requests, and get_channel, which takes the channel away.
abbrev pub start_on : SshSession → Program → ℕ → Option ℕ → Option ℕ → SshSession × Option Started
start_on s p c (some u) (some v) =
    if contains c s.clients
    then (
      record s { clients = without c s.clients },
      some (record { program = p; channel = c; on_server = v; for_user = u }),
    )
    else (s, none)
start_on s p c _ _ = (s, none)

abbrev pub start : SshSession → Program → ℕ → SshSession × Option Started
start s p c = start_on s p c s.user_uuid s.server

abbrev pub add_shell : ℕ → SshSession × Option Started → SshSession × Option Started
add_shell c (s, none) = (s, none)
add_shell c (s, some x) = (record s { shell_clients = c ∷ without c s.shell_clients }, some x)

unfoldable pub shell_request : Bool → SshSession → ℕ → SshSession × Option Started
shell_request enabled s c = if enabled then add_shell c (start s shell c) else (s, none)

unfoldable pub exec_request : SshSession → ℕ → SshSession × Option Started
exec_request s c = start s exec c

-- `is_sftp` is whether the subsystem's name is "sftp"; another is answered with a failure.
unfoldable pub subsystem_request : Bool → SshSession → ℕ → SshSession × Option Started
subsystem_request is_sftp s c = if is_sftp then start s sftp c else (s, none)

-- `is_interrupt` is whether the data is a ctrl-c; true where the client is disconnected.
unfoldable pub data_received : Bool → SshSession → ℕ → Bool
data_received is_interrupt s c = is_interrupt && contains c s.shell_clients
