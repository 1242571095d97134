-- ===== src/Rpc.antt =====
-- src/backend/nfs/rpc.rs: ONC RPC record marking, the call header and the reply envelopes.
mod Defs
pub mod Chunks
pub mod Framing
pub mod Header
pub mod Timeout
unfoldable pub use Defs.*
