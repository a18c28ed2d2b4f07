-- ===== src/Execution/SafeActions/Executor.antt =====
-- safe_action_executor.py, with the durable store of safe_action_idempotency_store.py and the log of
-- safe_action_audit.py. An audit record is the action with its result, oldest first: writing one
-- never raises, so `_write_audit_fail_closed` returns the result it is given. `Course` is what the
-- world does in one call. Metrics are left out.
mod State
unfoldable pub use State.*
use quant_embrace_v.Common.{
  ℕ, ◌+◌, Bool, true, false, not, Option, none, some, List, [], ◌∷◌, ◌++◌, ◌&&◌, ◌||◌, ◌==◌,
  if◌then◌else◌,
}
use quant_embrace_v.Execution.Orders.Database.{Fate, answered, lost_before, lost_after, seen}
use quant_embrace_v.Execution.SafeActions.Models.{
  ActionType, read_runtime_state, send_alert, run_reconciliation, attach_exit_policy_paper,
  repair_paper_zero_qty_open, update_paper_direction_from_quantity, force_paper_square_off,
  block_new_entries, pause_strategy_entries, activate_kill_switch, mark_live_readiness_blocked,
  generate_runbook_command, forbidden, TradingMode, requires_approval, durably_executed,
  already_executed, precondition_failed, not_implemented, approval, runtime_state, written,
  prior_action, message, runbook_command, SafeAction, ExecutionResult, plain_result,
}
use quant_embrace_v.Execution.SafeActions.Policy.{is_allowed, needs_approval, type_in}
use quant_embrace_v.Execution.SafeActions.RiskState.{
  Text, Item, claim_row, kill_switch_row, entry_block_row, idempotency, RiskTable,
  write_block_new_entries, write_kill_switch_active,
}

module _ (db : RiskTable) where
  open db use {Table, get_item, put_absent}

  abbrev audited : SafeAction → ExecutionResult → Executor → Table → Done Table
  audited a r ex t = record { executor = write_audit a r ex; table = t; result = r }

  -- `DurableIdempotencyStore.check`: an error counts as not found.
  unfoldable pub check : ℕ → Fate → Table → Option Item
  check key fate t = if is_answered fate then get_item t (idempotency key) else none

  -- `DurableIdempotencyStore.mark`
  unfoldable pub mark : ℕ → ℕ → ℕ → Fate → Table → Bool × Table
  mark key id now fate t =
      let (reply, t') = seen fate t (
        put_absent (idempotency key) (claim_row (record { action_id = id; created_at = now })) t) in
      elim reply [ some b ↦ (b, t') | none ↦ (false, t') ]

  unfoldable pub handle_send_alert : Call → Executor → Table → Done Table
  handle_send_alert c ex t =
      let delivered = if ex.has_notifier then c.course.notified else true in
      audited c.action
        (record (plain_result c.action) { executed = true; result_payload = message delivered }) ex
        t

  unfoldable pub handle_generate_runbook_command : Call → Executor → Table → Done Table
  handle_generate_runbook_command c ex t =
      audited c.action
        (record (plain_result c.action) {
          executed = true;
          result_payload = runbook_command c.action.subject;
        })
        ex t

  unfoldable pub handle_read_runtime_state : Call → Executor → Table → Done Table
  handle_read_runtime_state c ex t =
      audited c.action
        (record (plain_result c.action) { executed = true; result_payload = runtime_state }) ex t

  -- The branch of `_StubNotImplemented`.
  unfoldable pub stub : Call → Executor → Table → Done Table
  stub c ex t =
      audited c.action
        (record (plain_result c.action) {
          stub_not_implemented = true;
          blocked_reason = some not_implemented;
        })
        ex t

  -- The two writes for a call.
  abbrev pub block_write : Call → Table → Bool × Table
  block_write c t =
      write_block_new_entries db c.action.action_id c.action.idempotency_key (reason_or_effect c)
        c.course.now c.course.write_fate t

  abbrev pub kill_write : Call → Table → Bool × Table
  kill_write c t =
      write_kill_switch_active db c.action.action_id c.action.idempotency_key (reason_or_effect c)
        c.course.now c.course.write_fate t

  -- What the two writing handlers do with the reply of the writer.
  unfoldable pub after_write : (Counters → Counters) → Call → Executor → Bool × Table → Done Table
  after_write counted c ex (true, t) =
      let a = c.action in
      let (_, t') =
        if ex.has_durable
        then mark a.idempotency_key a.action_id c.course.now c.course.mark_fate t
        else (false, t) in
      audited a (record (plain_result a) { executed = true; result_payload = written })
        (record ex { counters = counted ex.counters }) t'
  after_write counted c ex (false, t) =
      let n = ex.counters in
      audited c.action (record (plain_result c.action) { error = true })
        (record ex {
          counters = record n { dynamo_write_failed_total = n.dynamo_write_failed_total + 1 };
        })
        t

  unfoldable pub handle_block_new_entries : Call → Executor → Table → Done Table
  handle_block_new_entries c ex t =
      if ex.has_writer then after_write count_block c ex (block_write c t) else stub c ex t

  unfoldable pub handle_activate_kill_switch : Call → Executor → Table → Done Table
  handle_activate_kill_switch c ex t =
      if ex.has_writer then after_write count_kill c ex (kill_write c t) else stub c ex t

  unfoldable pub dispatch : Handler → Call → Executor → Table → Done Table
  dispatch alert_handler c ex t = handle_send_alert c ex t
  dispatch runbook_handler c ex t = handle_generate_runbook_command c ex t
  dispatch state_handler c ex t = handle_read_runtime_state c ex t
  dispatch block_handler c ex t = handle_block_new_entries c ex t
  dispatch kill_handler c ex t = handle_activate_kill_switch c ex t
  dispatch no_handler c ex t = stub c ex t

  -- Gate 5, and the entry in the store of this session.
  unfoldable pub dispatch_gate : Call → Executor → Table → Done Table
  dispatch_gate c ex t =
      let d = dispatch (handler_map c.action.action_type) c ex t in
      if d.result.executed && not d.result.idempotency_skipped
      then record d {
        executor = record d.executor {
          idempotency_store =
              (c.action.idempotency_key, d.result.action_id) ∷ d.executor.idempotency_store;
        };
      }
      else d

  unfoldable pub precondition_gate : Call → Executor → Table → Done Table
  precondition_gate c ex t =
      if c.preconditions_met
      then dispatch_gate c ex t
      else audited c.action
          (record (plain_result c.action) {
            blocked = true;
            blocked_reason = some precondition_failed;
          })
          ex t

  unfoldable pub memory_gate : Call → Executor → Table → Done Table
  memory_gate c ex t = elim (lookup c.action.idempotency_key ex.idempotency_store) [
    | none ↦ precondition_gate c ex t
    | some prior ↦
        audited c.action
          (record (plain_result c.action) {
            idempotency_skipped = true;
            blocked_reason = some already_executed;
            result_payload = prior_action (some prior);
          })
          (count_skip ex) t
  ]

  unfoldable pub durable_gate : Call → Executor → Table → Done Table
  durable_gate c ex t =
      if ex.has_durable && type_in c.action.action_type write_action_types
      then elim (check c.action.idempotency_key c.course.check_fate t) [
        | none ↦ memory_gate c ex t
        | some existing ↦
            audited c.action
              (record (plain_result c.action) {
                idempotency_skipped = true;
                blocked_reason = some durably_executed;
                result_payload = prior_action (claimed_by existing);
              })
              (count_skip ex) t
      ]
      else memory_gate c ex t

  -- A runbook command needs a human, and is given all the same.
  unfoldable pub human_gate : Call → Executor → Table → Done Table
  human_gate c ex t =
      let a = c.action in
      if a.requires_human_approval || needs_approval a.action_type a.scope
      then (if type_in a.action_type (generate_runbook_command ∷ [])
          then handle_generate_runbook_command c (write_audit a (approval_result a) ex) t
          else audited a (approval_result a) ex t)
      else durable_gate c ex t

  unfoldable pub execute : Call → Executor → Table → Done Table
  execute c ex t = elim (is_allowed ex.mode c.action.action_type c.action.scope) [
    | none ↦ human_gate c ex t
    | some why ↦
        audited c.action
          (record (plain_result c.action) { blocked = true; blocked_reason = some why })
          (count_blocked ex) t
  ]
