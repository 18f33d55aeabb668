-- ===== src/Settlement.antt =====
-- The settlement side: src/trustrail/settlement.
pub mod Models
pub mod Queue
pub mod Worker
pub mod Chain
pub mod Rails
mod Tests
