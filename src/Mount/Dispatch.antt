-- ===== src/Mount/Dispatch.antt =====
-- src/backend/mod.rs and the `Mount` of src/mount.rs. A backend's handle is what its `Mounted` can be
-- asked, on a world that its calls change; the backends' own `mount` functions are given.
use anymount.Prelude.{Bool, true, false, ◌&&◌, Option, none, some, ok, err, if◌then◌else◌}
use anymount.Types.{OsStr}
use anymount.Error.{FsError, unsupported}
use anymount.Fs.{Step, pure, ◌>>=◌, ◌>>◌, FsResult}
use anymount.Mount.Builder.{Backend, auto, fuse, nfs, cf_api, MountBuilder}

pub data Os : Type 0 where
  linux macos windows other_os : Os

-- The target and the features of a build.
pub record Build : Type 0 where
  pub os : Os
  pub fuse_feature : Bool
  pub nfs_feature : Bool
  pub cfapi_feature : Bool

abbrev pub is_linux : Os → Bool
is_linux linux = true
is_linux macos = false
is_linux windows = false
is_linux other_os = false

abbrev pub is_macos : Os → Bool
is_macos linux = false
is_macos macos = true
is_macos windows = false
is_macos other_os = false

abbrev pub is_windows : Os → Bool
is_windows linux = false
is_windows macos = false
is_windows windows = true
is_windows other_os = false

abbrev pub has_fuse : Build → Bool
has_fuse b = is_linux b.os && b.fuse_feature

abbrev pub has_nfs : Build → Bool
has_nfs b = is_macos b.os && b.nfs_feature

abbrev pub has_cfapi : Build → Bool
has_cfapi b = is_windows b.os && b.cfapi_feature

unfoldable pub unavailable : Backend → FsError
unavailable fuse = unsupported "the `fuse` backend requires Linux and the `fuse` feature"
unavailable nfs = unsupported "the `nfs` backend requires macOS and the `nfs` feature"
unavailable cf_api = unsupported "the `cfapi` backend requires Windows and the `cfapi` feature"
unavailable auto = unsupported "no mount backend available for this platform"

module _ (W : Type 0) where
  -- The trait `Mounted`.
  pub record Mounted : Type 0 where
    pub unmount : Step W (FsResult (Unit {0}))
    pub backend : Backend
    pub uses_local_socket : Bool

  pub record Backends : Type 0 where
    pub mount_fuse : MountBuilder → Step W (FsResult Mounted)
    pub mount_nfs : MountBuilder → Step W (FsResult Mounted)
    pub mount_cfapi : MountBuilder → Step W (FsResult Mounted)

  pub record Mount : Type 0 where
    pub inner : Option Mounted
    pub mountpoint : OsStr
    pub backend : Backend
    pub local_socket : Bool

module _ {W : Type 0} where
  unfoldable pub new_mount : Mounted W → OsStr → Mount W
  new_mount handle path = record {
    inner = some handle;
    mountpoint = path;
    backend = handle.backend;
    local_socket = handle.uses_local_socket;
  }

  unfoldable pub auto_mount : Build → Backends W → MountBuilder → Step W (FsResult (Mounted W))
  auto_mount b backends builder =
      if has_fuse b
      then backends.mount_fuse builder
      else if has_nfs b
      then backends.mount_nfs builder
      else if has_cfapi b
      then backends.mount_cfapi builder
      else pure (err (unsupported "no mount backend compiled in for this platform"))

  -- The arms of `mount`; one that is not compiled in falls to the last.
  unfoldable pub mount_with :
      Build → Backends W → MountBuilder → Backend → Step W (FsResult (Mounted W))
  mount_with b backends builder auto = auto_mount b backends builder
  mount_with b backends builder fuse =
      if has_fuse b then backends.mount_fuse builder else pure (err (unavailable fuse))
  mount_with b backends builder nfs =
      if has_nfs b then backends.mount_nfs builder else pure (err (unavailable nfs))
  mount_with b backends builder cf_api =
      if has_cfapi b then backends.mount_cfapi builder else pure (err (unavailable cf_api))

  abbrev pub made : OsStr → FsResult (Mounted W) → FsResult (Mount W)
  made path (err e) = err e
  made path (ok handle) = ok (new_mount handle path)

  unfoldable pub mount : Build → Backends W → MountBuilder → Step W (FsResult (Mount W))
  mount b backends builder = do
    inner ← mount_with b backends builder builder.backend
    pure (made builder.mountpoint inner)

  -- `Option::take` and the call of the handle, as both `unmount` and `drop` begin.
  abbrev pub take_down : Option (Mounted W) → Step W (FsResult (Unit {0}))
  take_down none = pure (ok tt)
  take_down (some handle) = handle.unmount

  -- The error is only logged.
  unfoldable pub drop_mount : Mount W → Step W (Unit {0})
  drop_mount m = do take_down m.inner; pure tt

  -- The value is dropped as `unmount` returns, with nothing left in it.
  unfoldable pub unmount : Mount W → Step W (FsResult (Unit {0}))
  unfolding drop_mount
  unmount m = do result ← take_down m.inner; drop_mount (record m { inner = none }); pure result
