-- ===== src/Wasm.antt =====
-- crates/vault-wasm/src/wasm.rs: the WebAssembly boundary.
pub mod Decimal
pub mod Timestamp
pub mod Bundles
pub mod Session
pub mod Reopen
