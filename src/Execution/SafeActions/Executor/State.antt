-- ===== src/Execution/SafeActions/Executor/State.antt =====
-- The state of safe_action_executor.py, its calls and results, and what it does without the table.
use quant_embrace_v.Common.{
  ℕ, ◌+◌, Bool, true, false, Option, none, some, List, [], ◌∷◌, ◌++◌, ◌==◌, if◌then◌else◌,
}
use quant_embrace_v.Execution.Orders.Database.{Fate, answered, lost_before, lost_after}
use quant_embrace_v.Execution.SafeActions.Models.{
  ActionType, read_runtime_state, send_alert, run_reconciliation, attach_exit_policy_paper,
  repair_paper_zero_qty_open, update_paper_direction_from_quantity, force_paper_square_off,
  block_new_entries, pause_strategy_entries, activate_kill_switch, mark_live_readiness_blocked,
  generate_runbook_command, forbidden, TradingMode, requires_approval, approval, SafeAction,
  ExecutionResult, plain_result,
}
use quant_embrace_v.Execution.SafeActions.RiskState.{
  Text, Item, claim_row, kill_switch_row, entry_block_row,
}

pub record Counters : Type 0 where
  pub block_new_entries_total : ℕ
  pub kill_switch_activated_total : ℕ
  pub dynamo_write_failed_total : ℕ
  pub idempotency_skipped_total : ℕ
  pub action_blocked_total : ℕ

pub record Executor : Type 0 where
  pub mode : TradingMode
  pub has_notifier : Bool
  pub has_writer : Bool
  pub has_durable : Bool
  pub idempotency_store : List (ℕ × ℕ)  -- a key with the id of the action that ran
  pub counters : Counters
  pub audit : List (SafeAction × ExecutionResult)

unfoldable pub new : TradingMode → Bool → Bool → Bool → Executor
new mode notifier writer durable = record {
  mode = mode;
  has_notifier = notifier;
  has_writer = writer;
  has_durable = durable;
  idempotency_store = [];
  counters = record {
    block_new_entries_total = 0;
    kill_switch_activated_total = 0;
    dynamo_write_failed_total = 0;
    idempotency_skipped_total = 0;
    action_blocked_total = 0;
  };
  audit = [];
}

-- The answers to the three requests, what the notifier returns (false if it raises), and the clock.
pub record Course : Type 0 where
  pub check_fate : Fate
  pub write_fate : Fate
  pub mark_fate : Fate
  pub notified : Bool
  pub now : ℕ

-- A call of `execute`.
pub record Call : Type 0 where
  pub action : SafeAction
  pub reason : Text
  pub preconditions_met : Bool
  pub course : Course

pub record Done (T : Type 0) : Type 0 where
  pub executor : Executor
  pub table : T
  pub result : ExecutionResult

unfoldable pub write_action_types : List ActionType
write_action_types = block_new_entries ∷ activate_kill_switch ∷ []

unfoldable pub write_audit : SafeAction → ExecutionResult → Executor → Executor
write_audit a r ex = record ex { audit = ex.audit ++ (a, r) ∷ [] }

abbrev pub lookup : ℕ → List (ℕ × ℕ) → Option ℕ
lookup k [] = none
lookup k ((j, v) ∷ s) = if j == k then some v else lookup k s

abbrev pub count_skip : Executor → Executor
count_skip ex =
    let c = ex.counters in
    record ex {
      counters = record c { idempotency_skipped_total = c.idempotency_skipped_total + 1 };
    }

abbrev pub count_blocked : Executor → Executor
count_blocked ex =
    let c = ex.counters in
    record ex { counters = record c { action_blocked_total = c.action_blocked_total + 1 } }

-- `existing.get("action_id")`
abbrev pub claimed_by : Item → Option ℕ
claimed_by (claim_row c) = some c.action_id
claimed_by (kill_switch_row _) = none
claimed_by (entry_block_row b) = some b.action_id

abbrev pub is_answered : Fate → Bool
is_answered answered = true
is_answered lost_before = false
is_answered lost_after = false

-- The method that `_dispatch` finds.
pub data Handler : Type 0 where
  alert_handler runbook_handler state_handler block_handler kill_handler no_handler : Handler

unfoldable pub handler_map : ActionType → Handler
handler_map send_alert = alert_handler
handler_map generate_runbook_command = runbook_handler
handler_map read_runtime_state = state_handler
handler_map block_new_entries = block_handler
handler_map activate_kill_switch = kill_handler
handler_map run_reconciliation = no_handler
handler_map attach_exit_policy_paper = no_handler
handler_map repair_paper_zero_qty_open = no_handler
handler_map update_paper_direction_from_quantity = no_handler
handler_map force_paper_square_off = no_handler
handler_map pause_strategy_entries = no_handler
handler_map mark_live_readiness_blocked = no_handler
handler_map forbidden = no_handler

abbrev pub approval_result : SafeAction → ExecutionResult
approval_result a = record (plain_result a) {
  blocked = true;
  blocked_reason = some requires_approval;
  result_payload = approval;
}

abbrev pub count_block : Counters → Counters
count_block n = record n { block_new_entries_total = n.block_new_entries_total + 1 }

abbrev pub count_kill : Counters → Counters
count_kill n = record n { kill_switch_activated_total = n.kill_switch_activated_total + 1 }

-- `reason or action.expected_effect`
abbrev pub reason_or_effect : Call → Text
reason_or_effect c = elim c.reason [ some r ↦ some r | none ↦ c.action.expected_effect ]
