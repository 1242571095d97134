-- ===== src/NfsMount/Local.antt =====
-- src/backend/nfs/local.rs, and the handle of mod.rs. What is done to the system is a log of events;
-- what the system answers is a record that the functions are given. The path of the socket is ASCII,
-- so it is a `str`; the texts of the errors leave out the paths; a listener that no server took is
-- closed as it is dropped.
use anymount.Prelude.{
  ℕ, ◌+◌, ◌/◌, ◌%◌, Bool, true, false, Option, none, some, List, [], ◌∷◌, ◌++◌, Result, ok, err,
}
use anymount.Prelude.{length, ltb, ◌==◌, if◌then◌else◌}
use anymount.Types.{OsStr, root_ino}
use anymount.Error.{IoError, io, other, context}
use anymount.Fs.{Step, pure, ◌>>=◌, ◌>>◌, FsResult}
use anymount.Handle.{from_secret, encode, to_hex}
use anymount.Mount.{MountBuilder}
use anymount.NfsMount.Defs.{volume_label}
use anymount.NfsMount.Args as Args
use anymount.NfsMount.Args.{sun_path_max}
use anymount.NfsMount.Unmount.{unmount_path}

pub data Event : Type 0 where
  dir_created socket_bound socket_restricted tcp_bound : Event
  server_started : Bool → Event
  mount_called : List ℕ → Option IoError → Event
  mount_nfs_ran : ℕ → List ℕ → Result Bool IoError → Event
  unmount_called socket_removed dir_removed : Option IoError → Event
  mount_closed server_stopped server_joined : Event

-- What `unmount(2)` and the look at the path afterwards give.
pub record UnmountEnv : Type 0 where
  pub rc : Option IoError
  pub dev : Option ℕ
  pub parent : Option (Option ℕ)

-- What the two removals of `SocketDir::remove` answer.
pub record Removals : Type 0 where
  pub remove_file : Option IoError
  pub remove_dir : Option IoError

pub record LocalEnv : Type 0 where
  pub suffix : List ℕ
  pub secret : List ℕ
  pub create_dir : Option IoError
  pub bind : Option IoError
  pub set_permissions : Option IoError
  pub interior_nul : Bool
  pub mount_rc : Option IoError
  pub root_meta : Result ℕ IoError
  pub unmount : UnmountEnv
  pub removals : Removals

pub data Transport : Type 0 where
  local_socket tcp : Transport

pub record NfsHandle : Type 0 where
  pub mountpoint : OsStr
  pub transport : Transport
  pub socket_dir : Bool

abbrev pub happen : Event → Step (List Event) (Unit {0})
happen e log = (tt, log ++ (e ∷ []))

-- `/tmp/.anymount-<hex>` and `s` in it.
unfoldable pub socket_path : List ℕ → List ℕ
socket_path suffix =
    (b'/' ∷ b't' ∷ b'm' ∷ b'p' ∷ b'/' ∷ b'.' ∷ b'a' ∷ b'n' ∷ b'y' ∷ b'm' ∷ b'o' ∷ b'u' ∷ b'n' ∷ b't'
      ∷ b'-' ∷ [])
    ++ (to_hex suffix ++ (b'/' ∷ b's' ∷ []))

-- UTF-8.
unfoldable pub utf8_char : ℕ → List ℕ
utf8_char c =
    if ltb c 128
    then c ∷ []
    else if ltb c 2048
    then (192 + c / 64) ∷ (128 + c % 64) ∷ []
    else if ltb c 65536
    then (224 + c / 4096) ∷ (128 + (c / 64) % 64) ∷ (128 + c % 64) ∷ []
    else (240 + c / 262144) ∷ (128 + (c / 4096) % 64) ∷ (128 + (c / 64) % 64) ∷ (128 + c % 64) ∷ []

unfoldable pub utf8 : List ℕ → List ℕ
utf8 [] = []
utf8 (c ∷ cs) = utf8_char c ++ utf8 cs

-- `unmount_path` of mod.rs, with its call.
unfoldable pub take_down : Bool → UnmountEnv → Step (List Event) (FsResult (Unit {0}))
take_down true u = pure (unmount_path true u.rc u.dev u.parent)
take_down false u = do happen (unmount_called u.rc); pure (unmount_path false u.rc u.dev u.parent)

-- `SocketDir::remove`: the directory is tried whatever became of the socket, and no error is reported.
unfoldable pub socket_dir_remove : Removals → Step (List Event) (Unit {0})
socket_dir_remove removals = do
  happen (socket_removed removals.remove_file)
  happen (dir_removed removals.remove_dir)

-- `if let Some(dir) = &self.socket_dir`
abbrev pub remove_any : Bool → Removals → Step (List Event) (Unit {0})
remove_any false removals = pure tt
remove_any true removals = socket_dir_remove removals

-- `Mounted::unmount` of the handle.
unfoldable pub unmount_handle :
    Bool → UnmountEnv → Removals → NfsHandle → Step (List Event) (FsResult (Unit {0}))
unmount_handle interior_nul u removals handle = do
  unmounted ← take_down interior_nul u
  happen server_stopped
  happen server_joined
  remove_any handle.socket_dir removals
  pure unmounted

unfoldable pub uses_local_socket : NfsHandle → Bool
uses_local_socket handle = elim handle.transport [ local_socket ↦ true | tcp ↦ false ]

abbrev pub request_timeout_secs : ℕ
request_timeout_secs = 2

abbrev pub soft_retry_count : ℕ
soft_retry_count = 2

unfoldable pub mount_args : MountBuilder → LocalEnv → Args.LocalMountArgs
mount_args b env = record {
  socket_path = socket_path env.suffix;
  root_handle = encode (from_secret env.secret) root_ino;
  label = utf8 (volume_label b.fs_name);
  timeout_secs = request_timeout_secs;
  timeout_nanos = 0;
  soft_retry_count = soft_retry_count;
}

unfoldable pub verify : Result ℕ IoError → FsResult (Unit {0})
verify (err e) = err (context (io e) "reading the mount point back after mounting")
verify (ok ino) = if ino == root_ino then ok tt else err (other "the mount is not this filesystem")

abbrev pub mount_answer : Option IoError → FsResult (Unit {0})
mount_answer none = ok tt
mount_answer (some e) = err (context (io e) "mount(2) refused the local-socket NFS arguments")

unfoldable pub call_mount : MountBuilder → LocalEnv → Step (List Event) (FsResult (Unit {0}))
call_mount b env = elim env.interior_nul [
  | true ↦ pure (err (other "mountpoint has an interior NUL"))
  | false ↦ do
    happen (mount_called (Args.encode (mount_args b env)) env.mount_rc)
    pure (mount_answer env.mount_rc)
]

abbrev pub verified : LocalEnv → FsResult (Unit {0}) → FsResult (Unit {0})
verified env (err e) = err e
verified env (ok u) = verify env.root_meta

-- The failure takes down what may be mounted before the server stops.
abbrev pub finish_local :
    MountBuilder → LocalEnv → FsResult (Unit {0}) → Step (List Event) (FsResult NfsHandle)
finish_local b env (err e) = do
  take_down env.interior_nul env.unmount
  happen server_stopped
  happen server_joined
  pure (err e)
finish_local b env (ok u) =
    pure (ok (record { mountpoint = b.mountpoint; transport = local_socket; socket_dir = true }))

abbrev pub serve_local : MountBuilder → LocalEnv → Step (List Event) (FsResult NfsHandle)
serve_local b env = do
  happen (server_started false)
  called ← call_mount b env
  finish_local b env (verified env called)

abbrev pub restrict_socket :
    MountBuilder → LocalEnv → Option IoError → Step (List Event) (FsResult NfsHandle)
restrict_socket b env (some e) =
    pure (err (context (io e) "restricting permissions on the NFS socket"))
restrict_socket b env none = do happen socket_restricted; serve_local b env

abbrev pub bind_socket :
    MountBuilder → LocalEnv → Option IoError → Step (List Event) (FsResult NfsHandle)
bind_socket b env (some e) = pure (err (context (io e) "binding the NFS socket"))
bind_socket b env none = do happen socket_bound; restrict_socket b env env.set_permissions

unfoldable pub mount_in : MountBuilder → LocalEnv → Step (List Event) (FsResult NfsHandle)
mount_in b env =
    if ltb sun_path_max (length (socket_path env.suffix))
    then pure (err (other "socket path is over the sun_path limit"))
    else bind_socket b env env.bind

abbrev pub remove_on_error : Removals → FsResult NfsHandle → Step (List Event) (FsResult NfsHandle)
remove_on_error removals (ok handle) = pure (ok handle)
remove_on_error removals (err e) = do socket_dir_remove removals; pure (err e)

abbrev pub create_then :
    MountBuilder → LocalEnv → Option IoError → Step (List Event) (FsResult NfsHandle)
create_then b env (some e) =
    pure (err (context (io e) "creating the socket directory for the local NFS transport"))
create_then b env none = do
  happen dir_created
  made ← mount_in b env
  remove_on_error env.removals made

unfoldable pub mount_local : MountBuilder → LocalEnv → Step (List Event) (FsResult NfsHandle)
mount_local b env = create_then b env env.create_dir
