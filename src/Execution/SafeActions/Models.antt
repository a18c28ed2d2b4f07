-- ===== src/Execution/SafeActions/Models.antt =====
-- safe_action_models.py. Texts that only reach the log, the audit or the alert (preconditions,
-- expected effect, rollback, risk level, timestamps) are left out; ids and idempotency keys are
-- numbers, and of a payload the parts are kept that the executor computes.
use quant_embrace_v.Common.{ℕ, Bool, false, Option, none}

pub data ActionType : Type 0 where
  read_runtime_state send_alert run_reconciliation : ActionType
  attach_exit_policy_paper repair_paper_zero_qty_open : ActionType
  update_paper_direction_from_quantity force_paper_square_off : ActionType
  block_new_entries pause_strategy_entries activate_kill_switch : ActionType
  mark_live_readiness_blocked generate_runbook_command forbidden : ActionType

abbrev pub type_code : ActionType → ℕ
type_code read_runtime_state = 0
type_code send_alert = 1
type_code run_reconciliation = 2
type_code attach_exit_policy_paper = 3
type_code repair_paper_zero_qty_open = 4
type_code update_paper_direction_from_quantity = 5
type_code force_paper_square_off = 6
type_code block_new_entries = 7
type_code pause_strategy_entries = 8
type_code activate_kill_switch = 9
type_code mark_live_readiness_blocked = 10
type_code generate_runbook_command = 11
type_code forbidden = 12

pub data ActionScope : Type 0 where
  read_only paper_only risk_reduction live_human_gated forbidden_scope : ActionScope

abbrev pub scope_code : ActionScope → ℕ
scope_code read_only = 0
scope_code paper_only = 1
scope_code risk_reduction = 2
scope_code live_human_gated = 3
scope_code forbidden_scope = 4

pub data TradingMode : Type 0 where
  paper backtest live_disabled live_stage_1 live_full_blocked : TradingMode

pub data ClassificationResult : Type 0 where
  no_action alert_only read_only_verify paper_repair reduce_risk : ClassificationResult
  block_entries kill_switch human_approval_required never : ClassificationResult

-- `audit_payload["subject"]`, the key of the runbook templates.
pub data Subject : Type 0 where
  ai_engine execution_engine risk_engine other_service : Subject

pub record SafeAction : Type 0 where
  pub action_id : ℕ
  pub action_type : ActionType
  pub scope : ActionScope
  pub mode : TradingMode
  pub requires_human_approval : Bool
  pub idempotency_key : ℕ
  pub subject : Subject
  pub expected_effect : Option ℕ  -- a text, or none for the empty one

-- `blocked_reason`, one constructor for each text.
pub data Reason : Type 0 where
  always_forbidden scope_forbidden scope_not_permitted type_denied : Reason
  requires_approval durably_executed already_executed precondition_failed not_implemented : Reason

pub data Payload : Type 0 where
  nothing approval runtime_state written : Payload
  prior_action : Option ℕ → Payload
  message : Bool → Payload
  runbook_command : Subject → Payload

pub record ExecutionResult : Type 0 where
  pub action_id : ℕ
  pub action_type : ActionType
  pub executed : Bool
  pub blocked : Bool
  pub blocked_reason : Option Reason
  pub idempotency_skipped : Bool
  pub error : Bool  -- whether `error` is set
  pub stub_not_implemented : Bool
  pub result_payload : Payload

-- The defaults of the dataclass, for the action at hand.
abbrev pub plain_result : SafeAction → ExecutionResult
plain_result a = record {
  action_id = a.action_id;
  action_type = a.action_type;
  executed = false;
  blocked = false;
  blocked_reason = none;
  idempotency_skipped = false;
  error = false;
  stub_not_implemented = false;
  result_payload = nothing;
}
