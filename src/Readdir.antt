-- ===== src/Readdir.antt =====
-- src/backend/readdir.rs: cookies, and the driver of a paginated directory listing.
mod Defs
pub mod Listing
mod Steps
pub mod Refines
pub mod Keeps
pub mod Ends
pub mod Resume
unfoldable pub use Defs.*
