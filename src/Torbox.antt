-- ===== src/Torbox.antt =====
-- internal/torbox: what the provider's client makes of the provider's answers.
pub mod Types
pub mod Failure
pub mod Catalog
pub mod Listing
mod Tests
