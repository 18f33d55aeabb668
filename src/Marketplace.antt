-- ===== src/Marketplace.antt =====
-- The demo marketplace: src/backend/app/marketplace.
pub mod Contracts
pub mod Catalog
pub mod Repository
pub mod Service
mod Tests
