-- ===== src/NfsMount/Tcp.antt =====
-- src/backend/nfs/tcp.rs, and `mount` of mod.rs, with both transports compiled in.
use anymount.Prelude.{
  ℕ, Bool, true, false, Option, none, some, List, [], ◌∷◌, ◌++◌, Result, ok, err,
}
use anymount.Error.{FsError, IoError, io, other, context}
use anymount.Fs.{Step, pure, ◌>>=◌, ◌>>◌, FsResult}
use anymount.Handle.{ExportSecret, export_from_secret}
use anymount.Mount.{MountBuilder, Caps, Disk, check}
use anymount.NfsMount.Defs.{volume_label}
use anymount.NfsMount.Local.{
  Event, tcp_bound, server_started, mount_nfs_ran, mount_closed, server_stopped, server_joined,
  happen, LocalEnv, NfsHandle, tcp, utf8, mount_local,
}

-- The answers of the system; `output` is that of `mount_nfs`: whether it exited with success.
pub record TcpEnv : Type 0 where
  pub export_secret : List ℕ
  pub bind : Option IoError
  pub local_port : Result ℕ IoError
  pub output : Result Bool IoError

abbrev pub caps : Caps
caps = record {
  name = "nfs";
  allow_other = false;
  auto_unmount = false;
  empty_mountpoint = false;
  threads = false;
  nfs_local_socket = true;
}

-- `/export/<hex>/<label>`
unfoldable pub export_path : ExportSecret → List ℕ → List ℕ
export_path export fs_name =
    (b'/' ∷ b'e' ∷ b'x' ∷ b'p' ∷ b'o' ∷ b'r' ∷ b't' ∷ b'/' ∷ [])
    ++ (export.hex ++ (b'/' ∷ utf8 (volume_label fs_name)))

abbrev pub outcome_of : Result Bool IoError → FsResult (Unit {0})
outcome_of (err e) = err (context (io e) "spawning mount_nfs")
outcome_of (ok true) = ok tt
outcome_of (ok false) = err (other "mount_nfs exited with an error")

abbrev pub finish_tcp : MountBuilder → FsResult (Unit {0}) → Step (List Event) (FsResult NfsHandle)
finish_tcp b (err e) = do happen server_stopped; happen server_joined; pure (err e)
finish_tcp b (ok u) =
    pure (ok (record { mountpoint = b.mountpoint; transport = tcp; socket_dir = false }))

abbrev pub serve_tcp :
    MountBuilder → TcpEnv → Result ℕ IoError → Step (List Event) (FsResult NfsHandle)
serve_tcp b env (err e) = pure (err (context (io e) "reading NFS server socket's assigned port"))
serve_tcp b env (ok port) = do
  happen (server_started true)
  happen
      (mount_nfs_ran port (export_path (export_from_secret env.export_secret) b.fs_name) env.output)
  happen mount_closed
  finish_tcp b (outcome_of env.output)

abbrev pub bind_tcp :
    MountBuilder → TcpEnv → Option IoError → Step (List Event) (FsResult NfsHandle)
bind_tcp b env (some e) = pure (err (context (io e) "binding NFS server socket"))
bind_tcp b env none = do happen tcp_bound; serve_tcp b env env.local_port

unfoldable pub mount_tcp : MountBuilder → TcpEnv → Step (List Event) (FsResult NfsHandle)
mount_tcp b env = bind_tcp b env env.bind

-- The second and the third arm of the `match`: whether the fallback is forbidden.
abbrev pub refuse_or_fall_back :
    Bool → MountBuilder → TcpEnv → FsError → Step (List Event) (FsResult NfsHandle)
refuse_or_fall_back true b env e = pure (
    err (
      context e
        "the local-socket transport failed and nfs_require_local_socket forbids falling back to loopback TCP"))
refuse_or_fall_back false b env e = mount_tcp b env

abbrev pub fall_back :
    MountBuilder → TcpEnv → FsResult NfsHandle → Step (List Event) (FsResult NfsHandle)
fall_back b env (ok handle) = pure (ok handle)
fall_back b env (err e) = refuse_or_fall_back b.nfs_require_local_socket b env e

abbrev pub mount_checked :
    MountBuilder → LocalEnv → TcpEnv → FsResult (Unit {0}) → Step (List Event) (FsResult NfsHandle)
mount_checked b local over_tcp (err e) = pure (err e)
mount_checked b local over_tcp (ok u) = do made ← mount_local b local; fall_back b over_tcp made

unfoldable pub mount :
    Disk → LocalEnv → TcpEnv → MountBuilder → Step (List Event) (FsResult NfsHandle)
mount disk local over_tcp b = mount_checked b local over_tcp (check disk b caps)
