-- ===== src/Fuse/Session.antt =====
-- `mount` of src/backend/fuse.rs. `fuser::spawn_mount` is a parameter: what it does to the world, with
-- the session or the error.
use anymount.Prelude.{
  ℕ, Bool, true, false, not, ◌&&◌, Option, none, some, List, [], ◌∷◌, ◌++◌, Result, ok, err,
  if◌then◌else◌,
}
use anymount.Types.{OsStr}
use anymount.Error.{IoError, io, invalid_argument, context}
use anymount.Fs.{Step, pure, ◌>>=◌, FsResult}
use anymount.Mount.{MountBuilder, Caps, Disk, check}

abbrev pub default_worker_threads : ℕ
default_worker_threads = 4

abbrev pub caps : Caps
caps = record {
  name = "fuse";
  allow_other = true;
  auto_unmount = true;
  empty_mountpoint = false;
  threads = true;
  nfs_local_socket = false;
}

pub data MountOption : Type 0 where
  ro auto_unmount_option : MountOption
  fs_name_option : List ℕ → MountOption

pub data SessionAcl : Type 0 where
  all owner : SessionAcl

pub record Config : Type 0 where
  pub mount_options : List MountOption
  pub acl : SessionAcl
  pub n_threads : Option ℕ
  pub clone_fd : Bool

abbrev pub threads_or : Option ℕ → ℕ
threads_or none = default_worker_threads
threads_or (some n) = n

unfoldable pub config_of : MountBuilder → Config
config_of b = record {
  mount_options =
      (ro ∷ fs_name_option b.fs_name ∷ [])
      ++ (if b.auto_unmount then auto_unmount_option ∷ [] else []);
  acl = if b.allow_other then all else owner;
  n_threads = some (threads_or b.threads);
  clone_fd = true;
}

module _ {W H : Type 0} (spawn_mount : OsStr → Config → Step W (Result H IoError)) where
  abbrev pub spawned : Result H IoError → FsResult H
  spawned (err e) = err (io e)
  spawned (ok session) = ok session

  abbrev pub mount_checked : MountBuilder → FsResult (Unit {0}) → Step W (FsResult H)
  mount_checked b (err e) = pure (err e)
  mount_checked b (ok u) =
      if b.auto_unmount && not b.allow_other
      then pure (err (context invalid_argument "auto_unmount requires allow_other"))
      else (do session ← spawn_mount b.mountpoint (config_of b); pure (spawned session))

  unfoldable pub mount : Disk → MountBuilder → Step W (FsResult H)
  mount disk b = mount_checked b (check disk b caps)
