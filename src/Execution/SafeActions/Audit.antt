-- ===== src/Execution/SafeActions/Audit.antt =====
-- What safe_action_executor.py reports of a call: in the audit log, in the result, in the counters.
use quant_embrace_v.Common.{
  ◌≡◌, ◌≢◌, ◌⊎◌, inl, inr, refl, Bool, true, false, none, some, [], ◌∷◌, ◌++◌, arith,
}
use quant_embrace_v.Execution.SafeActions.Models.{block_new_entries, activate_kill_switch}
use quant_embrace_v.Execution.SafeActions.RiskState.{
  write_block_new_entries, write_kill_switch_active, kill_switch_item, entry_block_item,
  safe_actions, entry_block_row, kill_switch_row, kill_switch_key, entry_block_key, RiskTable,
}
use quant_embrace_v.Execution.SafeActions.Executor.{
  reason_or_effect, count_block, count_kill, block_write, kill_write, approval_result, Executor,
  Call, execute, human_gate, durable_gate, memory_gate, precondition_gate, dispatch_gate, dispatch,
  Counters, handler_map, handle_send_alert, handle_generate_runbook_command,
  handle_read_runtime_state, stub, Handler, handle_block_new_entries, handle_activate_kill_switch,
  after_write, write_audit,
}
use quant_embrace_v.Execution.SafeActions.Authority.{after_write-Confined, is_active, is_blocking}
use quant_embrace_v.Execution.SafeActions.Once.{is_runbook}

module _ (db : RiskTable) where
  open db use {Table, get_item, get_item-put_item, get_item-put_absent}

  after_write_audits :
      (count : Counters → Counters) (c : Call) (ex : Executor) (w : Bool × Table)
      → let d = after_write db count c ex w in
        d.executor.audit ≡ ex.audit ++ (c.action, d.result) ∷ []
  unfolding after_write write_audit
  after_write_audits count c ex (true, t) = refl
  after_write_audits count c ex (false, t) = refl

  dispatch_audits :
      (h : Handler) (c : Call) (ex : Executor) (t : Table)
      → let d = dispatch db h c ex t in d.executor.audit ≡ ex.audit ++ (c.action, d.result) ∷ []
  unfolding dispatch handle_send_alert handle_generate_runbook_command handle_read_runtime_state
      stub handle_block_new_entries handle_activate_kill_switch write_audit
  dispatch_audits h c ex t = ground (
    arith,
    after_write_audits count_block c ex (block_write db c t),
    after_write_audits count_kill c ex (kill_write db c t),
  )

  -- Every call leaves the result that it returns as the last record of the audit log, and nothing
  -- else, on every path; only before a runbook command stands the record that it needs approval.
  pub execute_audits :
      (c : Call) (ex : Executor) (t : Table)
      → let d = execute db c ex t in
        (d.executor.audit ≡ ex.audit ++ (c.action, d.result) ∷ [])
        ⊎ (is_runbook c.action.action_type ≡ true)
          × (d.executor.audit
              ≡ (ex.audit ++ (c.action, approval_result c.action) ∷ [])
                ++ (c.action, d.result) ∷ [])
  unfolding execute human_gate durable_gate memory_gate precondition_gate dispatch_gate
      handle_generate_runbook_command write_audit
  execute_audits c ex t = ground (arith, dispatch_audits (handler_map c.action.action_type) c ex t)

  block_write_holds :
      (c : Call) (t : Table)
      → ((block_write db c t).0 ≡ false)
        ⊎ (is_blocking (get_item (block_write db c t).1 entry_block_key) ≡ true)
  unfolding write_block_new_entries entry_block_item
  block_write_holds c t =
      let a = c.action in
      let i =
        entry_block_row
          (entry_block_item true (reason_or_effect c) a.action_id a.idempotency_key c.course.now) in
      ground (arith, get_item-put_item entry_block_key i t entry_block_key)

  kill_write_holds :
      (c : Call) (t : Table)
      → ((kill_write db c t).0 ≡ false)
        ⊎ (is_active (get_item (kill_write db c t).1 kill_switch_key) ≡ true)
  unfolding write_kill_switch_active kill_switch_item
  kill_write_holds c t =
      let a = c.action in
      let i = kill_switch_row (
        kill_switch_item true (reason_or_effect c) safe_actions c.course.now (some c.course.now)
          none (some (a.action_id, a.idempotency_key))) in
      ground (arith, get_item-put_item kill_switch_key i t kill_switch_key)

  -- A handler that reports a write has had it acknowledged, and only then counts it.
  after_write_reports :
      (count : Counters → Counters) (c : Call) (ex : Executor) (w : Bool × Table)
      → let d = after_write db count c ex w in
        (d.result.executed ≡ w.0) × ((w.0 ≡ false) ⊎ (d.executor.counters ≡ count ex.counters))
  unfolding after_write write_audit
  after_write_reports count c ex (true, t) = (refl, inr refl)
  after_write_reports count c ex (false, t) = (refl, inl refl)

  -- The result of a writing action never claims a write that is not in the table: if it says that
  -- the action was executed, the kill switch reads as active, or the entry block as set, when the
  -- call returns, and the counter of that action has gone up by one.
  pub executed_is_written :
      (c : Call) (ex : Executor) (t : Table)
      → let d = execute db c ex t in
        ((c.action.action_type ≢ block_new_entries)
          ⊎ (d.result.executed ≡ false)
          ⊎ (is_blocking (get_item d.table entry_block_key) ≡ true)
            × (d.executor.counters ≡ count_block ex.counters))
        × ((c.action.action_type ≢ activate_kill_switch)
            ⊎ (d.result.executed ≡ false)
            ⊎ (is_active (get_item d.table kill_switch_key) ≡ true)
              × (d.executor.counters ≡ count_kill ex.counters))
  unfolding execute human_gate durable_gate memory_gate precondition_gate dispatch_gate dispatch
      handler_map handle_generate_runbook_command handle_block_new_entries
      handle_activate_kill_switch stub
  executed_is_written c ex t = ground (
    arith,
    block_write_holds c t,
    kill_write_holds c t,
    after_write_reports count_block c ex (block_write db c t),
    after_write_reports count_kill c ex (kill_write db c t),
    after_write-Confined db count_block c ex (block_write db c t) entry_block_key,
    after_write-Confined db count_kill c ex (kill_write db c t) kill_switch_key,
  )
