-- ===== src/Gateway.antt =====
-- internal/gateway: the service that submits sources, follows the provider and serves the catalog.
pub mod Release
pub mod Catalog
pub mod Reconcile
pub mod Staging
pub mod Mount
pub mod Pass
pub mod Budget
mod Tests
