-- ===== src/Mandates.antt =====
-- src/trustrail/mandate/service.py: the Mandate Service.
pub mod Rail
pub mod Service
mod Keeps
mod Steps
mod Tests
pub mod Lifecycle
pub mod Runs
pub mod OneTime
pub mod Stored
