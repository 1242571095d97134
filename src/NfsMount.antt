-- ===== src/NfsMount.antt =====
-- src/backend/nfs/mod.rs, mount_args.rs, local.rs and tcp.rs: making a mount and taking it down.
mod Defs
mod Args
mod Local
mod Tcp
pub mod Label
pub mod Unmount
pub mod Fields
pub mod Layout
pub mod Held
pub mod LocalEnds
pub mod Resources
pub mod Call
unfoldable pub use Defs.*
unfoldable pub use Args.*
unfoldable pub use Local.*
unfoldable pub use Tcp.*
