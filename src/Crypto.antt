-- ===== src/Crypto.antt =====
-- crates/vault-core/src/crypto.rs: associated data, key derivation and authenticated encryption.
mod Aad
mod Keys
mod Seal
pub mod Binding
pub mod RoundTrip
unfoldable pub use Aad.*
unfoldable pub use Keys.*
unfoldable pub use Seal.*
