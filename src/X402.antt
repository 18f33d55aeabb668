-- ===== src/X402.antt =====
-- src/trustrail/x402: the two purchase protocols, the repository's own and the public one.
pub mod PublicSpec
pub mod Terms
pub mod Client
mod Tests
