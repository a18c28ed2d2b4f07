-- ===== src/Risk.antt =====
-- The risk engine: services/risk_engine.
pub mod KillSwitch
pub mod Limits
pub mod Signals
pub mod Validators
pub mod ContextBuilder
pub mod DailyLoss
pub mod Pipeline
pub mod FillHandler
pub mod Publishing
