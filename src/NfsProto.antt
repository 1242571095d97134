-- ===== src/NfsProto.antt =====
-- src/backend/nfs/nfs_proto.rs: the procedures of the NFS program.
mod Attrs
mod Procs
mod Dirs
pub mod Lengths
pub mod Rejects
pub mod Stale
pub mod Returns
pub mod Budget
pub mod ReadReply
pub mod PostOp
pub mod Entries
pub mod Fitting
pub mod ListReply
pub mod Progress
pub mod Listing
pub mod Content
pub mod Found
unfoldable pub use Attrs.*
unfoldable pub use Procs.*
unfoldable pub use Dirs.*
