-- ===== src/Execution/SafeActions.antt =====
-- services/execution_engine/safe_actions: what the monitoring agent may do on its own. Models,
-- the policy, the classifier, the shared risk-state table and the executor, and what they keep.
pub mod Models
pub mod Policy
pub mod Classifier
pub mod RiskState
pub mod Executor
pub mod Authority
pub mod Once
pub mod Audit
mod Tests
