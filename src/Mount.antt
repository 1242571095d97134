-- ===== src/Mount.antt =====
-- src/mount.rs, src/backend/mod.rs and src/backend/preflight.rs: what a mount is asked for, which
-- backend serves it, and how it is taken down.
mod Builder
mod Preflight
mod Dispatch
pub mod Checked
pub mod Lifecycle
unfoldable pub use Builder.*
unfoldable pub use Preflight.*
unfoldable pub use Dispatch.*
