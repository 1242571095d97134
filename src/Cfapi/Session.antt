-- ===== src/Cfapi/Session.antt =====
-- src/backend/cfapi.rs: the sync root of a mount, from its registration to its teardown. The calls of
-- the platform and of the standard library are steps on a state of theirs; what the source only logs
-- is left out, and so are the sizes of the structures. The entries that the iteration over a directory
-- gives are a list.
use anymount.Prelude.{
  ℕ, Bool, true, false, Option, none, some, List, [], ◌∷◌, Result, ok, err, String,
}
use anymount.Types.{OsStr}
use anymount.Error.{IoError, unsupported, context, WindowsError, from_windows}
use anymount.Fs.{Step, pure, ◌>>=◌, ◌>>◌, FsResult}
use anymount.Mount.{MountBuilder, Caps, Disk, check}
use anymount.NfsMount.{utf8}
use anymount.Cfapi.Defs.{to_wide}

abbrev pub caps : Caps
caps = record {
  name = "cfapi";
  allow_other = false;
  auto_unmount = false;
  empty_mountpoint = true;
  threads = false;
  nfs_local_socket = false;
}

abbrev pub provider_id : ℕ
provider_id = 0x38f6_9b72_5e8a_4f53_88e9_6b09_e09b_88c6

-- `CARGO_PKG_VERSION`: 1.0.0
abbrev pub pkg_version : OsStr
pkg_version = b'1' ∷ b'.' ∷ b'0' ∷ b'.' ∷ b'0' ∷ []

-- `CF_SYNC_REGISTRATION`, with what its pointers point at.
pub record SyncRegistration : Type 0 where
  pub provider_name : List ℕ
  pub provider_version : List ℕ
  pub sync_root_identity : List ℕ
  pub file_identity : List ℕ
  pub provider_id : ℕ

pub data HydrationModifier : Type 0 where
  streaming_allowed auto_dehydration_allowed : HydrationModifier

pub data Hydration : Type 0 where
  hydration_full : List HydrationModifier → Hydration

pub data Population : Type 0 where
  population_partial : Population

-- `CF_SYNC_POLICIES`: the other policies are none and the default.
pub record SyncPolicies : Type 0 where
  pub hydration : Hydration
  pub population : Population

-- The callback table, up to its terminator.
pub data CallbackType : Type 0 where
  fetch_data fetch_placeholders : CallbackType

pub record PlatformInfo : Type 0 where
  pub build : ℕ
  pub revision : ℕ
  pub integration : ℕ

-- The calls of the Cloud Files API, and those of `std::fs` on the entries of the mount point.
pub record Platform : Type 1 where
  pub State : Type 0
  pub get_platform_info : Step State (Result PlatformInfo WindowsError)
  pub register_sync_root :
      List ℕ → SyncRegistration → SyncPolicies → Step State (Result (Unit {0}) WindowsError)
  pub connect_sync_root : List ℕ → List CallbackType → Step State (Result ℕ WindowsError)
  pub disconnect_sync_root : ℕ → Step State (Result (Unit {0}) WindowsError)
  pub unregister_sync_root : List ℕ → Step State (Result (Unit {0}) WindowsError)
  pub read_dir : OsStr → Step State (Result (List (Result OsStr IoError)) IoError)
  pub is_dir : OsStr → Step State (Result Bool IoError)
  pub readonly : OsStr → Step State (Result Bool IoError)
  pub clear_readonly : OsStr → Step State (Result (Unit {0}) IoError)
  pub remove_dir_all : OsStr → Step State (Result (Unit {0}) IoError)
  pub remove_file : OsStr → Step State (Result (Unit {0}) IoError)

pub record CfApiHandle : Type 0 where
  pub mountpoint : OsStr
  pub connection : ℕ

abbrev pub ok_of : {A : Type 0} → Result A WindowsError → Option A
ok_of (ok a) = some a
ok_of (err e) = none

-- `match (disconnected, unregistered)`
unfoldable pub first_error : FsResult (Unit {0}) → FsResult (Unit {0}) → FsResult (Unit {0})
first_error (err e) (err second) = err e
first_error (err e) (ok u) = err e
first_error (ok u) (err e) = err e
first_error (ok u) (ok v) = ok tt

abbrev pub registration : (OsStr → List ℕ) → List ℕ → SyncRegistration
registration encode_wide fs_name = record {
  provider_name = to_wide encode_wide (utf8 fs_name);
  provider_version = to_wide encode_wide pkg_version;
  sync_root_identity = [];
  file_identity = [];
  provider_id = provider_id;
}

abbrev pub policies : SyncPolicies
policies = record {
  hydration = hydration_full (streaming_allowed ∷ auto_dehydration_allowed ∷ []);
  population = population_partial;
}

abbrev pub callbacks : List CallbackType
callbacks = fetch_data ∷ fetch_placeholders ∷ []

module _ (P : Platform) where
  unfoldable pub probe : Step P.State (Option PlatformInfo)
  probe = do info ← P.get_platform_info; pure (ok_of info)

  abbrev pub make_writable : OsStr → Result Bool IoError → Step P.State (Unit {0})
  make_writable path (ok true) = do P.clear_readonly path; pure tt
  make_writable path (ok false) = pure tt
  make_writable path (err e) = pure tt

  -- An entry whose type cannot be read is taken for a file.
  abbrev pub remove_as : OsStr → Result Bool IoError → Step P.State (Unit {0})
  remove_as path (ok true) = do P.remove_dir_all path; pure tt
  remove_as path (ok false) = do
    meta ← P.readonly path
    make_writable path meta
    P.remove_file path
    pure tt
  remove_as path (err e) = do
    meta ← P.readonly path
    make_writable path meta
    P.remove_file path
    pure tt

  unfoldable pub remove_entry : OsStr → Step P.State (Unit {0})
  remove_entry path = do kind ← P.is_dir path; remove_as path kind

  -- `entries.flatten()`
  unfoldable pub remove_entries : List (Result OsStr IoError) → Step P.State (Unit {0})
  remove_entries [] = pure tt
  remove_entries (err e ∷ entries) = remove_entries entries
  remove_entries (ok path ∷ entries) = do remove_entry path; remove_entries entries

  abbrev pub remove_read : Result (List (Result OsStr IoError)) IoError → Step P.State (Unit {0})
  remove_read (err e) = pure tt
  remove_read (ok entries) = remove_entries entries

  unfoldable pub remove_leftover_placeholders : OsStr → Step P.State (Unit {0})
  remove_leftover_placeholders mountpoint = do entries ← P.read_dir mountpoint; remove_read entries

-- `map_err` with `FsError::from`, and with a context.
abbrev pub from : {A : Type 0} → ℕ → Result A WindowsError → FsResult A
from e_accessdenied (ok a) = ok a
from e_accessdenied (err e) = err (from_windows e_accessdenied e)

abbrev pub with_context : {A : Type 0} → String → FsResult A → FsResult A
with_context what (ok a) = ok a
with_context what (err e) = err (context e what)

module _ (P : Platform) (encode_wide : OsStr → List ℕ) (e_accessdenied : ℕ) where
  unfoldable pub register_sync_root : List ℕ → List ℕ → Step P.State (FsResult (Unit {0}))
  register_sync_root path_wide fs_name = do
    registered ← P.register_sync_root path_wide (registration encode_wide fs_name) policies
    pure (from e_accessdenied registered)

  unfoldable pub connect_sync_root : List ℕ → Step P.State (FsResult ℕ)
  connect_sync_root path_wide = do
    connected ← P.connect_sync_root path_wide callbacks
    pure (with_context "connecting the cfapi sync root" (from e_accessdenied connected))

  abbrev pub finish_mount : MountBuilder → FsResult ℕ → Step P.State (FsResult CfApiHandle)
  finish_mount b (ok connection) =
      pure (ok (record { mountpoint = b.mountpoint; connection = connection }))
  finish_mount b (err e) = do
    P.unregister_sync_root (to_wide encode_wide b.mountpoint)
    pure (err e)

  abbrev pub mount_registered :
      MountBuilder → FsResult (Unit {0}) → Step P.State (FsResult CfApiHandle)
  mount_registered b (err e) = pure (err e)
  mount_registered b (ok u) = do
    connected ← connect_sync_root (to_wide encode_wide b.mountpoint)
    finish_mount b connected

  abbrev pub mount_probed : MountBuilder → Option PlatformInfo → Step P.State (FsResult CfApiHandle)
  mount_probed b none =
      pure (err (unsupported "Cloud Files API unavailable: requires Windows 10 1709 or later"))
  mount_probed b (some info) = do
    registered ← register_sync_root (to_wide encode_wide b.mountpoint) b.fs_name
    mount_registered b (with_context "registering the cfapi sync root" registered)

  abbrev pub mount_checked :
      MountBuilder → FsResult (Unit {0}) → Step P.State (FsResult CfApiHandle)
  mount_checked b (err e) = pure (err e)
  mount_checked b (ok u) = do info ← probe P; mount_probed b info

  unfoldable pub mount : Disk → MountBuilder → Step P.State (FsResult CfApiHandle)
  mount disk b = mount_checked b (check disk b caps)

  -- `Mounted::unmount` of the handle.
  unfoldable pub unmount : CfApiHandle → Step P.State (FsResult (Unit {0}))
  unmount handle = do
    disconnected ← P.disconnect_sync_root handle.connection
    unregistered ← P.unregister_sync_root (to_wide encode_wide handle.mountpoint)
    remove_leftover_placeholders P handle.mountpoint
    pure (
        first_error
          (with_context "disconnecting the cfapi sync root" (from e_accessdenied disconnected))
          (with_context "unregistering the cfapi sync root" (from e_accessdenied unregistered)))
