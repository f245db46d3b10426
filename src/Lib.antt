-- ===== src/Lib.antt =====
-- Pocket Vault: the core of an end-to-end encrypted password vault that keeps its data in a small
-- key-value device storage. This library models the Rust crates crates/vault-core and
-- crates/vault-wasm.
--
-- Parts and how they interact. A vault is a container of entries, serialized, sealed under a random data
-- key (DEK) and stored in one of two slots. The DEK is wrapped under a key that is derived from the
-- master password, and the wrapped key is stored in the metadata. A session (UnlockedVault) holds the
-- container and the DEK; the repository (TwoSlotRepository) writes the session to the inactive slot,
-- reads it back, verifies it and only then moves the active pointer.
-- In the browser the storage is JavaScript's: the bridge (VaultBridge) gives the texts to be stored,
-- checks what was read back, and opens a snapshot of the storage by the repository over a memory
-- that it fills; the WebAssembly boundary passes the bridge's results on as texts.
--
-- Files:
--   Base        byte strings, UTF-8, tests into Bool, results, and computations on an explicit state
--   Error       StorageError and VaultError, crates/vault-core/src/error.rs
--   Model       the data types and their validate methods, crates/vault-core/src/model.rs; Model.Spec
--               says what a well-formed value is without that code, and Model.Validation relates the two
--   Platform    the crates that the code calls, as a record of operations and a record of their laws:
--               rand_core (fill), argon2 (accepts_params, hash_password), hkdf (hkdf_expand),
--               chacha20poly1305 (accepts_key, seal, unseal), serde_json (a codec for each stored type)
--   Crypto      associated data, key derivation and sealing, crates/vault-core/src/crypto.rs
--   Vault       create_vault, unlock_vault, rewrap_vault_key and the methods of UnlockedVault,
--               crates/vault-core/src/vault.rs; Vault.EntryMap views a session as a map of entries,
--               Vault.Edits has sequences of edits, and Vault.Ledger is an abstract machine of such a map,
--               of what it answers and of the random source, which Vault.Refinement relates to the session
--   Storage     DeviceStorage, MemoryStorage and TwoSlotRepository, crates/vault-core/src/storage.rs;
--               the repository's open is open_vault. Storage.Reference is a reference for open that
--               reads a fixed view of the storage, Storage.Best says without that reference which slot
--               is to be preferred and Storage.Preference relates open to it, Storage.Holding says how a
--               session and its storage agree, Storage.Crash treats a save that stops anywhere,
--               Storage.Recoverable says what is known of a storage at any time, Storage.Decision and
--               Storage.Reopening treat open on it, Storage.History sequences of edits, saves and
--               openings, and Storage.Progress a storage that works
--   Debug       the Debug implementations of crates/vault-core/src/model.rs and vault.rs, as their calls
--               of the standard formatter
--   Encoding    the base64url texts of bytes and identifiers, crates/vault-core/src/encoding.rs; the engine
--               is a record of operations and a record of their laws
--   Bridge      VaultBridge, the browser's session, crates/vault-wasm/src/bridge.rs: State, Codes and
--               Opening have its data, error codes, create and open (open_session), Saving the
--               two-phase save and the password change, Entries the calls on entries. Bridge.TwoPhase
--               has the calls that change the session as a step relation and Bridge.Steps their
--               sequences, Bridge.Refusals says what a call may do while a save or a password change is
--               pending, and Bridge.Locked what may follow lock; Bridge.Reopen, Bridge.SaveOpen and
--               Bridge.PasswordOpen open again what a call gave to be stored, and Bridge.Listing goes
--               from the list of entries to the single ones. Bridge.History has sequences of calls on
--               a bridge and of its caller's writes to the storage; Bridge.Journal says what is known
--               of both at any time
--   Wasm        the WebAssembly boundary, crates/vault-wasm/src/wasm.rs: parse_timestamp
--               (Wasm.Timestamp), the bundles and WasmVaultSession (Wasm.Session, where create is
--               create_session and open is open_stored)
--   Serde       the JSON values of the stored types, crates/vault-core/src/model.rs: the names of the fields
--               after rename_all and rename, deny_unknown_fields, skip_serializing_if, and the Serialize
--               and Deserialize of identifiers and bytes. Serde.Codecs makes codecs of them, and Serde.Payloads
--               has EntrySummary and EntryDetails of crates/vault-wasm/src/bridge.rs
--   Tests       a concrete platform and one vault on it, at which the theorems are applied
--
-- State and operations. A random source and a storage adapter are states R and S that a computation
-- passes on (Base.Exec); a method with `&mut self` returns the session after it beside its result. A
-- storage call may fail, and StorageLaws lets a failed write have happened or not, so a theorem about
-- every outcome of `save` covers a save that an error stops at any storage call.
--
-- Bounds. A u64 or usize is a native number; the only sum that the code checks is the next generation,
-- which is below 2^64 (checked_add). Timestamps are compared and never added. The identifier loop has
-- the source's 8 attempts and reports RandomGenerationFailed after them; all other loops run over a
-- list. An f64 is a signed numerator over a power of two, or no finite number, so the tests of
-- parse_timestamp are exact. A decimal text is written in 20 rounds, which every u64 fits; the reading
-- of a u64 checks each product and sum against 2^64.
--
-- Parameters. What the sources call and do not contain is an argument: the crates of Platform, the base64
-- engine, serde's part in reading a value (Serde.Fields.Serde: a struct's members under its attributes,
-- unit variants, integers, texts and arrays, with what serde documents as SerdeLaws), serde_json's writer
-- and parser, and serde_json at the payload types of the bridge (Bridge.Entries.Payloads, which
-- Serde.Payloads fills).
--
-- Not modelled: zeroizing on drop (no result of the code depends on it), the texts of the errors,
-- wasm-bindgen itself, and the web application.
pub mod Base
pub mod Error
pub mod Model
pub mod Platform
pub mod Crypto
pub mod Encoding
pub mod Vault
pub mod Storage
pub mod Debug
pub mod Bridge
pub mod Wasm
pub mod Serde
pub mod Tests
