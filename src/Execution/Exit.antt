-- ===== src/Execution/Exit.antt =====
-- How open positions are closed: services/execution_engine/exit and monitors/trade_exit_engine.py.
-- The models, the positions table, the engine that decides and the router that locks and places.
pub mod Models
pub mod Positions
pub mod Engine
pub mod Router
pub mod Triggers
pub mod Trailing
pub mod Lock
mod Tests
