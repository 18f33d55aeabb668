-- ===== src/Verifier.antt =====
-- src/trustrail/verifier: the pure decision function.
pub mod Checks
pub mod Authority
pub mod Service
pub mod Facts
mod Worst
pub mod Decision
mod Trace
pub mod Verdicts
mod Tests
