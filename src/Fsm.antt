-- ===== src/Fsm.antt =====
-- The package fsm: the replicated key-value store.
pub mod Endian
pub mod Platform
pub mod Stream
pub mod Errors
pub mod Batch
pub mod Header
pub mod Save
pub mod Restore
pub mod RoundTrip
pub mod Disk
pub mod DataDir
pub mod Store
pub mod Sizes
pub mod Command
pub mod Machine
