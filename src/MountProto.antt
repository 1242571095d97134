-- ===== src/MountProto.antt =====
-- src/backend/nfs/mount_proto.rs: the procedures of the MOUNT program.
mod Defs
pub mod Mnt
unfoldable pub use Defs.*
