-- ===== src/Tests.antt =====
-- Tests at concrete inputs, and each theorem at an input that meets its hypotheses.
mod Toy
mod Scene
mod ToyBase64
mod ToySerde
mod ToyJson
mod ModelTests
mod CryptoTests
mod VaultTests
mod StorageTests
mod HistoryTests
mod ProgressTests
mod BridgeTests
mod SerdeTests
mod ReopenTests
mod WasmTests
mod DebugTests
mod BridgeHistoryTests
mod PayloadTests
mod ReadFailureTests
mod RefinementTests
