-- ===== src/Xdr.antt =====
-- src/backend/nfs/xdr.rs: the bounds-checked reader and the writer of XDR (RFC 4506) primitives.
-- A method on `&mut Reader` gives its result and the reader afterwards, also when it fails midway.
-- `usize` has 64 bits.
mod Defs
pub mod Reads
pub mod Writes
pub mod RoundTrip
unfoldable pub use Defs.*
