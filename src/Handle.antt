-- ===== src/Handle.antt =====
-- src/backend/nfs/handle.rs: the NFSv3 file handle and the export value of the MOUNT protocol.
-- `[u8; N]` is a list of bytes, its length a hypothesis where a theorem needs it. `black_box` is
-- the identity. Drawing random bytes is the operating system's, so secrets are arguments.
mod Defs
pub mod CtEq
pub mod Laws
pub mod Export
unfoldable pub use Defs.*
