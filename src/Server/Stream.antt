-- ===== src/Server/Stream.antt =====
-- Playing over a stream of signed messages (server/factorfight/).
pub mod Convert
pub mod Transit
pub mod Peer
pub mod InStep
pub mod Honest
pub mod Service
pub mod Certified
mod Tests
