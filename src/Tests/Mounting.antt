-- ===== src/Tests/Mounting.antt =====
-- Mounts that are made, refused, and taken down.
use anymount.Prelude.{
  ℕ, ◌+◌, ◌-◌, ◌≡◌, refl, arith, false, true, some, none, [], ◌∷◌, ok, err, length, ltb, replicate,
}
use anymount.Types.{root_ino}
use anymount.Error.{IoError, io_error, ErrorKind, other}
use anymount.Xdr.{new_reader}
use anymount.Xdr.RoundTrip.{at}
use anymount.Handle.{from_secret, resolve}
use anymount.Mount.{
  MountBuilder, new_builder, Disk, Build, linux, Mounted, Backends, Mount, fuse, Backend, mount,
  new_mount, mount_with, auto_mount, unmount, drop_mount,
}
use anymount.Mount.Lifecycle.{Has, Asked, run_backend, mount-Lifecycle}
use anymount.NfsMount.{
  Event, LocalEnv, UnmountEnv, TcpEnv, LocalMountArgs, sun_path_max, socket_path, mount_args,
}
use anymount.NfsMount as NfsMount
use anymount.NfsMount.Fields.{read_fields, word}
use anymount.NfsMount.Layout.{layout, attribute_bits, value_fields, Bounded, encode-layout}
use anymount.NfsMount.Resources.{Settled, mount-Settled}
use anymount.NfsMount.Call.{mount_args-Bounded}
use anymount.Tests.Fixtures.{secret}

abbrev small_args : LocalMountArgs
small_args = record {
  socket_path = b'/' ∷ b's' ∷ [];
  root_handle = 1 ∷ 2 ∷ 3 ∷ 4 ∷ 5 ∷ [];
  label = b'd' ∷ [];
  timeout_secs = 2;
  timeout_nanos = 0;
  soft_retry_count = 2;
}

encode-layout_example : read_fields layout (new_reader (NfsMount.encode small_args)) ≡ (
  some (
      word 88
      ∷ word (length (NfsMount.encode small_args))
      ∷ word 0
      ∷ word 2
      ∷ word attribute_bits
      ∷ word 0
      ∷ word (length (NfsMount.encode small_args) - 28)
      ∷ value_fields small_args),
  at (NfsMount.encode small_args) [],
)
encode-layout_example = encode-layout small_args (record {
  path = omega arith;
  handle = omega arith;
  name = omega arith;
  secs = omega arith;
  nanos = omega arith;
  retries = omega arith;
})

abbrev refused : IoError
refused = io_error ErrorKind.permission_denied "refused"

-- `mount(2)` refuses the arguments, so that the mount falls back to TCP.
abbrev local_fails : LocalEnv
local_fails = record {
  suffix = replicate 8 171;
  secret = secret;
  create_dir = none;
  bind = none;
  set_permissions = none;
  interior_nul = false;
  mount_rc = some refused;
  root_meta = ok 1;
  unmount = record { rc = none; dev = none; parent = none };
  removals = record { remove_file = none; remove_dir = some refused };
}

abbrev tcp_works : TcpEnv
tcp_works = record { export_secret = secret; bind = none; local_port = ok 2049; output = ok true }

abbrev here : Disk
here = record { metadata = ok true; read_dir = ok false }

abbrev builder : MountBuilder
builder = new_builder (b'/' ∷ b'm' ∷ [])

mount-Settled_example :
    Settled builder local_fails (NfsMount.mount here local_fails tcp_works builder [])
mount-Settled_example = mount-Settled here local_fails tcp_works builder

mount_args-Bounded_example :
    (ltb sun_path_max (length (socket_path local_fails.suffix)) ≡ false)
    × Bounded (mount_args builder local_fails)
    × (resolve (from_secret local_fails.secret) (mount_args builder local_fails).root_handle
        ≡ some root_ino)
mount_args-Bounded_example = mount_args-Bounded builder local_fails refl refl

-- A world that counts the unmounts, and a platform whose unmounts fail.
abbrev counted : Mounted ℕ
counted = record {
  unmount = λ n. (err (other "busy"), n + 1);
  backend = fuse;
  uses_local_socket = false;
}

abbrev linux_build : Build
linux_build = record { os = linux; fuse_feature = true; nfs_feature = true; cfapi_feature = true }

abbrev backends : Backends ℕ
backends = record {
  mount_fuse = λ b n. (ok counted, n);
  mount_nfs = λ b n. (err (other "no"), n);
  mount_cfapi = λ b n. (err (other "no"), n);
}

abbrev made : Mount ℕ
made = record {
  inner = some counted;
  mountpoint = b'/' ∷ b'm' ∷ [];
  backend = fuse;
  local_socket = false;
}

mounted : mount linux_build backends builder 0 ≡ (ok made, 0)
unfolding mount mount_with auto_mount new_mount new_builder
mounted = refl

mount-Lifecycle_example :
    (k : Backend) × (handle : Mounted ℕ) × Has linux_build k
    × Asked builder.backend k
    × (run_backend linux_build backends k builder 0 ≡ (ok handle, 0))
    × (made.backend ≡ handle.backend)
    × (made.mountpoint ≡ builder.mountpoint)
    × ((v : ℕ) → unmount made v ≡ handle.unmount v)
    × ((v : ℕ) → (drop_mount made v).1 ≡ (handle.unmount v).1)
mount-Lifecycle_example = mount-Lifecycle linux_build backends builder 0 0 made mounted
