-- ===== src/Server.antt =====
-- src/backend/nfs/server.rs: the accept loop, the loop of one connection, and the dispatch of a call.
mod Defs
pub mod Message
pub mod Workers
pub mod Connection
pub mod ReadCall
pub mod ReadResult
pub mod Download
pub mod HandleResult
pub mod HandleCall
pub mod Fetch
unfoldable pub use Defs.*
