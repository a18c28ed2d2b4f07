-- ===== src/Strategy.antt =====
-- The strategy engine: services/strategy_engine/runners.
pub mod CircuitBreaker
pub mod Runner
