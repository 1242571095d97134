-- ===== src/Fuse.antt =====
-- src/backend/fuse.rs: the Linux backend, as the replies of its callbacks.
mod Defs
pub mod Read
pub mod Xattr
pub mod Directory
mod Session
pub mod Options
unfoldable pub use Defs.*
unfoldable pub use Session.*
