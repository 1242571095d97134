-- ===== src/Cfapi.antt =====
-- src/backend/cfapi.rs: the Windows backend, as callbacks on operations of the platform.
mod Defs
mod Chunks
mod Steps
pub mod Transfer
pub mod Content
pub mod Listing
mod Session
pub mod Tracked
pub mod Teardown
pub mod Leftovers
unfoldable pub use Defs.*
unfoldable pub use Chunks.*
unfoldable pub use Session.*
