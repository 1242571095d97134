-- ===== src/MemFs.antt =====
-- examples/memfs.rs: the in-memory filesystem, an implementation of the trait.
mod Defs
mod Tables
mod Demo
pub mod Handles
pub mod Served
unfoldable pub use Defs.*
unfoldable pub use Demo.*
