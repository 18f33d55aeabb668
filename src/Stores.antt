-- ===== src/Stores.antt =====
-- src/trustrail/stores/memory.py: the in-memory stores. Every method holds its lock for its whole body,
-- so each is one step. Dynamo is src/trustrail/stores/dynamo.py.
pub mod Mandates
pub mod KillSwitch
pub mod Directories
pub mod Holds
pub mod Dynamo
mod Tests
