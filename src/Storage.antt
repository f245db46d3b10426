-- ===== src/Storage.antt =====
-- crates/vault-core/src/storage.rs: the storage adapter, the in-memory adapter and the two-slot
-- repository.
mod Adapter
mod Memory
mod Json
mod Select
mod Repository
pub mod Effects
pub mod SaveSafety
pub mod Save
pub mod Selection
pub mod Reference
mod SaveSlot
pub mod Selecting
pub mod Best
pub mod Preference
pub mod Newest
pub mod Recovery
pub mod Holding
pub mod Crash
pub mod Initialize
pub mod Progress
pub mod Lifecycle
pub mod Recoverable
pub mod Decision
pub mod Reopening
pub mod History
pub mod Clear
unfoldable pub use Adapter.*
unfoldable pub use Memory.*
unfoldable pub use Json.*
unfoldable pub use Select.*
unfoldable pub use Repository.*
