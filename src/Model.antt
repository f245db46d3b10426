-- ===== src/Model.antt =====
-- The persistent data model, crates/vault-core/src/model.rs. The `Debug` and `Drop` implementations
-- (redaction, zeroizing) have no result that the program reads.
mod Ids
mod Kdf
mod Meta
mod Slot
mod Entry
mod Container
pub mod Spec
pub mod Validation
unfoldable pub use Ids.*
unfoldable pub use Kdf.*
unfoldable pub use Meta.*
unfoldable pub use Slot.*
unfoldable pub use Entry.*
unfoldable pub use Container.*
