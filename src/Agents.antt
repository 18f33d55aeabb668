-- ===== src/Agents.antt =====
-- The shopping agents: src/backend/app/agents.
pub mod Patterns
pub mod Evaluator
pub mod Evidence
pub mod Browser
pub mod Bedrock
pub mod Adapter
mod Tests
