-- ===== src/Bridge.antt =====
-- crates/vault-wasm/src/bridge.rs: the browser's session, its two-phase save, its password change
-- and its entries.
mod State
mod Saving
mod Codes
pub mod Entries
mod Opening
mod Checks
pub mod Coherence
pub mod TwoPhase
pub mod Steps
pub mod Completion
pub mod Loading
pub mod Reopen
pub mod SaveOpen
pub mod PasswordOpen
pub mod Editing
pub mod Journal
pub mod JournalWrites
pub mod JournalSteps
pub mod JournalOpen
pub mod History
pub mod Listing
pub mod Privacy
pub mod Refusals
pub mod Locked
unfoldable pub use State.*
unfoldable pub use Saving.*
unfoldable pub use Codes.*
unfoldable pub use Opening.*
