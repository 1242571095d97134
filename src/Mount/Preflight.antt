-- ===== src/Mount/Preflight.antt =====
-- src/backend/preflight.rs. What `metadata` and `read_dir` answer for the mountpoint are arguments:
-- whether it is a directory, and whether it has an entry. The texts of the errors leave out the
-- explanations that follow their first clause.
use Prim.Native.String.{◌++◌ as ◌<>◌}
use anymount.Prelude.{
  Bool, true, false, not, ◌&&◌, Option, none, some, Result, ok, err, String, if◌then◌else◌,
}
use anymount.Error.{IoError, io, invalid_argument, not_a_directory, context}
use anymount.Fs.{FsResult}
use anymount.Mount.Builder.{MountBuilder}

pub record Caps : Type 0 where
  pub name : String
  pub allow_other : Bool
  pub auto_unmount : Bool
  pub threads : Bool
  pub empty_mountpoint : Bool
  pub nfs_local_socket : Bool

pub record Disk : Type 0 where
  pub metadata : Result Bool IoError
  pub read_dir : Result Bool IoError

unfoldable pub check_mountpoint : Result Bool IoError → FsResult (Unit {0})
check_mountpoint (err e) = err (context (io e) "mountpoint is not usable")
check_mountpoint (ok true) = ok tt
check_mountpoint (ok false) = err (context not_a_directory "mountpoint is not a directory")

unfoldable pub check_mountpoint_empty : Result Bool IoError → FsResult (Unit {0})
check_mountpoint_empty (err e) = err (context (io e) "reading mountpoint to check that it is empty")
check_mountpoint_empty (ok true) = err (context invalid_argument "mountpoint is not empty")
check_mountpoint_empty (ok false) = ok tt

-- The `?` operator.
abbrev pub and_then : {A B : Type 0} → FsResult A → FsResult B → FsResult B
and_then (err e) k = err e
and_then (ok a) k = k

abbrev pub is_some : {A : Type 0} → Option A → Bool
is_some none = false
is_some (some a) = true

abbrev pub cannot_honor : Caps → String → FsResult (Unit {0})
cannot_honor caps option =
    err (context invalid_argument ("the " <> caps.name <> " backend cannot honor " <> option))

unfoldable pub check_options : MountBuilder → Caps → FsResult (Unit {0})
check_options b caps =
    if b.allow_other && not caps.allow_other
    then cannot_honor caps "allow_other"
    else if is_some b.threads && not caps.threads
    then cannot_honor caps "threads"
    else if b.nfs_require_local_socket && not caps.nfs_local_socket
    then cannot_honor caps "nfs_require_local_socket"
    else if b.auto_unmount && not caps.auto_unmount
    then cannot_honor caps "auto_unmount"
    else ok tt

unfoldable pub check : Disk → MountBuilder → Caps → FsResult (Unit {0})
check disk b caps = and_then (check_mountpoint disk.metadata) (
    and_then (if caps.empty_mountpoint then check_mountpoint_empty disk.read_dir else ok tt)
      (check_options b caps))
