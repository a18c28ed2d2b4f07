-- ===== src/Execution.antt =====
-- The execution engine: services/execution_engine.
pub mod Retry
pub mod Orders
pub mod SafeActions
pub mod Exit
