-- ===== src/Settlement/Rails.antt =====
-- src/trustrail/settlement/rails: the two ways to move money.
pub mod Card
pub mod Onchain
mod Tests
