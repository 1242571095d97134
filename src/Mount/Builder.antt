-- ===== src/Mount/Builder.antt =====
-- src/mount.rs: `Backend` and `MountBuilder`. A text is the list of its characters' code points.
use anymount.Prelude.{ℕ, Bool, false, Option, none, some, List, [], ◌∷◌, ltb, if◌then◌else◌}
use anymount.Types.{OsStr}

pub data Backend : Type 0 where
  auto fuse nfs cf_api : Backend

pub record MountBuilder : Type 0 where
  pub mountpoint : OsStr
  pub backend : Backend
  pub fs_name : List ℕ
  pub allow_other : Bool
  pub auto_unmount : Bool
  pub threads : Option ℕ
  pub nfs_require_local_socket : Bool

unfoldable pub new_builder : OsStr → MountBuilder
new_builder path = record {
  mountpoint = path;
  backend = auto;
  fs_name = b'a' ∷ b'n' ∷ b'y' ∷ b'm' ∷ b'o' ∷ b'u' ∷ b'n' ∷ b't' ∷ [];
  allow_other = false;
  auto_unmount = false;
  threads = none;
  nfs_require_local_socket = false;
}

unfoldable pub set_backend : Backend → MountBuilder → MountBuilder
set_backend k b = record b { backend = k }

unfoldable pub set_fs_name : List ℕ → MountBuilder → MountBuilder
set_fs_name name b = record b { fs_name = name }

unfoldable pub set_allow_other : Bool → MountBuilder → MountBuilder
set_allow_other asked b = record b { allow_other = asked }

unfoldable pub set_auto_unmount : Bool → MountBuilder → MountBuilder
set_auto_unmount asked b = record b { auto_unmount = asked }

unfoldable pub set_nfs_require_local_socket : Bool → MountBuilder → MountBuilder
set_nfs_require_local_socket asked b = record b { nfs_require_local_socket = asked }

-- `n.max(1)`
unfoldable pub set_threads : ℕ → MountBuilder → MountBuilder
set_threads n b = record b { threads = some (if ltb n 1 then 1 else n) }
