-- ===== src/Execution/SafeActions/Once.antt =====
-- That safe_action_executor.py does a thing once: by the store of its session, and over a restart
-- by the durable store.
use quant_embrace_v.Common.{
  ℕ, ◌+◌, ◌≤◌, ◌≡◌, ◌⊎◌, inl, inr, refl, Bool, true, false, not, ◌&&◌, none, List, [], ◌∷◌, arith,
  is_some, Option-cases, if◌then◌else◌, ◌==◌,
}
use quant_embrace_v.Execution.Orders.Database.{answered}
use quant_embrace_v.Execution.SafeActions.Models.{ActionType, generate_runbook_command}
use quant_embrace_v.Execution.SafeActions.Policy.{type_in}
use quant_embrace_v.Execution.SafeActions.RiskState.{idempotency, RiskTable, claim_row}
use quant_embrace_v.Execution.SafeActions.Executor.{
  count_block, count_kill, block_write, kill_write, Executor, Call, execute, human_gate,
  durable_gate, memory_gate, precondition_gate, dispatch_gate, dispatch, Counters, handler_map,
  handle_send_alert, handle_generate_runbook_command, handle_read_runtime_state, stub, Handler,
  check, handle_block_new_entries, handle_activate_kill_switch, after_write, mark, lookup,
  write_action_types, write_audit,
}
use quant_embrace_v.Execution.SafeActions.Authority.{history, nothing_is_cleared}

abbrev pub is_runbook : ActionType → Bool
is_runbook type = type_in type (generate_runbook_command ∷ [])

-- A finished action that counts: a runbook command is only text, and is given every time.
abbrev counts : ℕ → Call → Bool → ℕ
counts key c executed =
    if executed && not (is_runbook c.action.action_type) && (c.action.idempotency_key == key)
    then 1
    else 0

abbrev stored : ℕ → Executor → ℕ
stored key ex = if is_some (lookup key ex.idempotency_store) then 1 else 0

module _ (db : RiskTable) where
  open db use {Table, get_item, put_absent_reply, get_item-put_absent}

  after_write_keeps :
      (count : Counters → Counters) (c : Call) (ex : Executor) (w : Bool × Table)
      → let d = after_write db count c ex w in
        (d.executor.idempotency_store ≡ ex.idempotency_store)
        × (d.result.idempotency_skipped ≡ false)
  unfolding after_write write_audit
  after_write_keeps count c ex (true, t) = (refl, refl)
  after_write_keeps count c ex (false, t) = (refl, refl)

  dispatch_keeps :
      (h : Handler) (c : Call) (ex : Executor) (t : Table)
      → let d = dispatch db h c ex t in
        (d.executor.idempotency_store ≡ ex.idempotency_store)
        × (d.result.idempotency_skipped ≡ false)
  unfolding dispatch handle_send_alert handle_generate_runbook_command handle_read_runtime_state
      stub handle_block_new_entries handle_activate_kill_switch write_audit
  dispatch_keeps h c ex t = ground (
    arith,
    after_write_keeps count_block c ex (block_write db c t),
    after_write_keeps count_kill c ex (kill_write db c t),
  )

  -- The store gains the key of an action that was executed, and was not in it.
  execute_stores :
      (c : Call) (ex : Executor) (t : Table)
      → let d = execute db c ex t in
        (d.executor.idempotency_store ≡ ex.idempotency_store)
          × ((d.result.executed ≡ false) ⊎ (is_runbook c.action.action_type ≡ true))
        ⊎ (d.executor.idempotency_store
            ≡ (c.action.idempotency_key, d.result.action_id) ∷ ex.idempotency_store)
          × (lookup c.action.idempotency_key ex.idempotency_store ≡ none)
  unfolding execute human_gate durable_gate memory_gate precondition_gate dispatch_gate
      handle_generate_runbook_command write_audit
  execute_stores c ex t = ground (arith, dispatch_keeps (handler_map c.action.action_type) c ex t)

  -- The calls of one session, each with the table as it finds it, whatever others have done to it.
  unfoldable pub times_executed : ℕ → List (Call × Table) → Executor → ℕ
  times_executed key [] ex = 0
  times_executed key ((c, t) ∷ calls) ex =
      let d = execute db c ex t in
      counts key c d.result.executed + times_executed key calls d.executor

  -- In one session an idempotency key is executed at most once, whatever the table holds and
  -- whatever the requests to it answer; not at all, if it is in the store. Runbook commands,
  -- which change nothing, do not count.
  pub executed_once :
      (key : ℕ) (calls : List (Call × Table)) (ex : Executor)
      → times_executed key calls ex + stored key ex ≤ 1
  unfolding times_executed
  executed_once key [] ex = ground arith
  executed_once key ((c, t) ∷ calls) ex =
      let d = execute db c ex t in
      ground (arith, executed_once key calls d.executor, execute_stores c ex t)

  mark_claims :
      (key id now : ℕ) (t : Table)
      → is_some (get_item (mark db key id now answered t).1 (idempotency key)) ≡ true
  unfolding mark
  mark_claims key id now t =
      let i = claim_row (record { action_id = id; created_at = now }) in
      ground (arith, get_item-put_absent (idempotency key) i t (idempotency key))

  after_write_claims :
      (count : Counters → Counters) (c : Call) (ex : Executor) (w : Bool × Table)
      → ex.has_durable ≡ true
      → c.course.mark_fate ≡ answered
      → let d = after_write db count c ex w in
        (d.result.executed ≡ false)
        ⊎ (is_some (get_item d.table (idempotency c.action.idempotency_key)) ≡ true)
  unfolding after_write
  after_write_claims count c ex (true, t) durable marked =
      ground (arith, mark_claims c.action.idempotency_key c.action.action_id c.course.now t)
  after_write_claims count c ex (false, t) durable marked = inl refl

  execute_claims :
      (c : Call) (ex : Executor) (t : Table)
      → ex.has_durable ≡ true
      → type_in c.action.action_type write_action_types ≡ true
      → c.course.mark_fate ≡ answered
      → let d = execute db c ex t in
        (d.result.executed ≡ false)
        ⊎ (is_some (get_item d.table (idempotency c.action.idempotency_key)) ≡ true)
  unfolding execute human_gate durable_gate memory_gate precondition_gate dispatch_gate dispatch
      handler_map handle_block_new_entries handle_activate_kill_switch stub write_action_types
  execute_claims c ex t durable writes marked = ground (
    arith,
    after_write_claims count_block c ex (block_write db c t) durable marked,
    after_write_claims count_kill c ex (kill_write db c t) durable marked,
  )

  claimed_is_skipped :
      (c : Call) (ex : Executor) (t : Table)
      → ex.has_durable ≡ true
      → type_in c.action.action_type write_action_types ≡ true
      → c.course.check_fate ≡ answered
      → is_some (get_item t (idempotency c.action.idempotency_key)) ≡ true
      → ((execute db c ex t).result.executed ≡ false) × ((execute db c ex t).table ≡ t)
  unfolding execute human_gate durable_gate check write_action_types handle_generate_runbook_command
  claimed_is_skipped c ex t durable writes checked claimed = ground arith

  -- Over a restart: after a writing action that was executed and marked, no later executor with
  -- the durable store executes its key again, whatever calls of whatever executors come between, if
  -- its own check is answered; and it leaves the table alone.
  pub restart_skips :
      (c again : Call) (ex fresh : Executor) (between : List (Executor × Call)) (t : Table)
      → ex.has_durable ≡ true
      → type_in c.action.action_type write_action_types ≡ true
      → c.course.mark_fate ≡ answered
      → (execute db c ex t).result.executed ≡ true
      → fresh.has_durable ≡ true
      → type_in again.action.action_type write_action_types ≡ true
      → again.course.check_fate ≡ answered
      → again.action.idempotency_key ≡ c.action.idempotency_key
      → let later = history db between (execute db c ex t).table in
        ((execute db again fresh later).result.executed ≡ false)
        × ((execute db again fresh later).table ≡ later)
  restart_skips c again ex fresh between t durable writes marked ran durable' writes' checked same =
      let key = c.action.idempotency_key in
      let after = (execute db c ex t).table in
      let later = history db between after in
      claimed_is_skipped again fresh later durable' writes' checked (
        rw same (elim (Option-cases (get_item after (idempotency key))) [
          | inl e ↦ ground (arith, execute_claims c ex t durable writes marked, e)
          | inr (claim, e) ↦ ground (arith, nothing_is_cleared db between after key claim, e)
        ]))
