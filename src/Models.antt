-- ===== src/Models.antt =====
-- The wire contract (src/trustrail/models): frozen Pydantic models as records, string enums as data
-- types. Identifiers, addresses and hashes are the lowercased texts that `primitives.py` produces.
pub mod Money
pub mod Amounts
pub mod Mandate
pub mod Charge
pub mod Evaluation
pub mod Registry
pub mod Verdict
pub mod Review
pub mod Audit
pub mod Config
mod Tests
