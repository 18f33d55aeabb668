-- ===== src/Stores/Dynamo.antt =====
-- src/trustrail/stores/dynamo.py: the stores over DynamoDB tables.
pub mod Table
pub mod Mandates
pub mod Audit
pub mod Control
pub mod Holds
mod Tests
