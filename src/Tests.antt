-- ===== src/Tests.antt =====
-- The theorems at concrete inputs: a filesystem of one file, a mount's secret, a message.
mod Fixtures
mod Wire
mod Listings
mod Nfs
mod Label
mod Memory
mod SyncRoot
mod Paging
mod Download
mod Windows
mod Linux
mod Mounting
mod Session
