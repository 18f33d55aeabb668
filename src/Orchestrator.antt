-- ===== src/Orchestrator.antt =====
-- The Purchase Orchestrator: src/trustrail/orchestrator/purchase.py.
pub mod Office
pub mod Purchase
mod Quiet
pub mod Gathered
pub mod Origins
pub mod Queueing
pub mod Answers
pub mod Holding
pub mod Later
pub mod Suspension
pub mod Judged
mod Tests
