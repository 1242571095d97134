-- ===== src/NfsMount/Unmount.antt =====
-- src/backend/nfs/mod.rs: taking a mount down. What the system calls return are
-- arguments, and the texts of the errors leave out the path.
use anymount.Prelude.{ℕ, Bool, true, false, not, Option, none, some, ok, err, ◌==◌}
use anymount.Prelude.{if◌then◌else◌}
use anymount.Error.{IoError, io, other, context, Libc, to_errno}
use anymount.Fs.{FsResult}

-- The device of the path, if it can be inspected; and for the parent `none` if the path is the root,
-- else its device, if it can be inspected.
unfoldable pub still_mounted : Option ℕ → Option (Option ℕ) → Bool
still_mounted none parent = false
still_mounted (some dev) none = true
still_mounted (some dev) (some none) = true
still_mounted (some dev) (some (some parent_dev)) = not (parent_dev == dev)

-- Whether the path has an interior NUL, and the error of `unmount(2)`, if it fails.
unfoldable pub unmount_path :
    Bool → Option IoError → Option ℕ → Option (Option ℕ) → FsResult (Unit {0})
unmount_path true rc dev parent = err (other "mountpoint has an interior NUL")
unmount_path false none dev parent = ok tt
unmount_path false (some e) dev parent =
    if not (still_mounted dev parent) then ok tt else err (context (io e) "unmount failed")

abbrev errno_of : Libc → FsResult (Unit {0}) → ℕ
errno_of c (ok u) = 0
errno_of c (err e) = to_errno c e
