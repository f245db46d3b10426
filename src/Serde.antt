-- ===== src/Serde.antt =====
-- The serde implementations of crates/vault-core/src/model.rs on JSON values: the derived ones, by
-- the attributes of the types, and those written out. A value that is refused is none, for the
-- callers drop the error's text.
pub mod Fields
pub mod Keys
pub mod Stored
pub mod Contents
pub mod RoundTrip
pub mod ContentsRoundTrip
pub mod Codecs
pub mod Strict
pub mod Payloads
