-- ===== src/Vault.antt =====
-- crates/vault-core/src/vault.rs: the unlocked session, how it is made, and its operations.
mod Session
mod Open
mod Create
mod Entries
mod Commit
mod Members
pub mod Invariant
pub mod Edits
pub mod EntryMap
pub mod Ledger
pub mod Refusals
pub mod Refinement
pub mod Commits
pub mod Reopen
pub mod Rewrap
unfoldable pub use Session.*
unfoldable pub use Open.*
unfoldable pub use Create.*
unfoldable pub use Entries.*
unfoldable pub use Commit.*
