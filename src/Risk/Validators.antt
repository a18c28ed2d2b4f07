-- ===== src/Risk/Validators.antt =====
-- services/risk_engine/validators: one module per validator. A validator that reads the database takes
-- what the read gives as an argument; none stands for a read that raises.
pub mod Age
pub mod EntryBlock
pub mod Reconciliation
pub mod Context
pub mod Position
pub mod Margin
pub mod Slippage
pub mod Bounds
pub mod ContextBounds
