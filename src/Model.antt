-- ===== src/Model.antt =====
-- internal/model: the release sources that the gateway retains.
pub mod Types
pub mod InfoHash
pub mod Bencode
pub mod Source
mod Tests
