-- ===== src/Execution/SafeActions/Authority.antt =====
-- What safe_action_executor.py may do to the risk-state table, and when.
use quant_embrace_v.Common.{
  ℕ, ◌≡◌, ◌≢◌, ◌⊎◌, inl, refl, Bool, true, false, Option, none, some, List, [], ◌∷◌, arith,
}
use quant_embrace_v.Execution.Orders.Database.{Fate}
use quant_embrace_v.Execution.SafeActions.Models.{
  ActionType, block_new_entries, activate_kill_switch,
}
use quant_embrace_v.Execution.SafeActions.Policy.{is_allowed, needs_approval, type_in}
use quant_embrace_v.Execution.SafeActions.RiskState.{
  safe_actions, Text, claim_row, key_eq, Key, Item, kill_switch_row, entry_block_row,
  kill_switch_key, entry_block_key, idempotency, RiskTable, write_block_new_entries,
  write_kill_switch_active, kill_switch_item, entry_block_item,
}
use quant_embrace_v.Execution.SafeActions.Executor.{
  count_block, count_kill, block_write, kill_write, Handler, alert_handler, runbook_handler,
  state_handler, block_handler, kill_handler, no_handler, reason_or_effect, Handler, kill_handler,
  block_handler, Counters, Executor, Call, execute, human_gate, durable_gate, memory_gate,
  precondition_gate, dispatch_gate, dispatch, handler_map, handle_send_alert,
  handle_generate_runbook_command, handle_read_runtime_state, stub, handle_block_new_entries,
  handle_activate_kill_switch, after_write, mark, lookup, write_action_types,
}

-- The kill switch reads as active, the entry block as set.
abbrev pub is_active : Option Item → Bool
is_active none = false
is_active (some (kill_switch_row k)) = k.active
is_active (some (entry_block_row b)) = false
is_active (some (claim_row c)) = false

abbrev pub is_blocking : Option Item → Bool
is_blocking none = false
is_blocking (some (kill_switch_row k)) = false
is_blocking (some (entry_block_row b)) = b.blocked
is_blocking (some (claim_row c)) = false

module _ (db : RiskTable) where
  open db use {Table, get_item, get_item-put_item, get_item-put_absent}

  -- What every gate has let through.
  abbrev pub Authorised : Call → Executor → Type 0
  Authorised c ex =
      (is_allowed ex.mode c.action.action_type c.action.scope ≡ none)
      × (c.action.requires_human_approval ≡ false)
      × (needs_approval c.action.action_type c.action.scope ≡ false)
      × (lookup c.action.idempotency_key ex.idempotency_store ≡ none)
      × (c.preconditions_met ≡ true)
      × (type_in c.action.action_type write_action_types ≡ true)
      × (ex.has_writer ≡ true)

  dispatch_changes :
      (c : Call) (ex : Executor) (t : Table)
      → ((dispatch_gate db c ex t).table ≡ t)
        ⊎ (type_in c.action.action_type write_action_types ≡ true) × (ex.has_writer ≡ true)
  unfolding dispatch_gate dispatch handler_map handle_send_alert handle_generate_runbook_command
      handle_read_runtime_state stub handle_block_new_entries handle_activate_kill_switch
      write_action_types
  dispatch_changes c ex t = ground arith

  -- The table is as it was unless the action is one of the two writing types and has passed the
  -- policy, the human gate and its preconditions, its key is not in the store of this session, and
  -- the executor has a writer.
  pub execute-Authorised :
      (c : Call) (ex : Executor) (t : Table) → ((execute db c ex t).table ≡ t) ⊎ Authorised c ex
  unfolding execute human_gate durable_gate memory_gate precondition_gate
      handle_generate_runbook_command
  execute-Authorised c ex t = ground (arith, dispatch_changes c ex t)

  -- What one call may leave at a key.
  abbrev pub Confined : Call → Key → Option Item → Option Item → Type 0
  Confined c j before after =
      (after ≡ before)
      ⊎ (j ≡ entry_block_key)
        × (c.action.action_type ≡ block_new_entries)
        × (is_blocking after ≡ true)
      ⊎ (j ≡ kill_switch_key)
        × (c.action.action_type ≡ activate_kill_switch)
        × (is_active after ≡ true)
      ⊎ (j ≡ idempotency c.action.idempotency_key) × (before ≡ none)

  key_eq-≡ : (k j : Key) → key_eq k j ≡ true → k ≡ j
  key_eq-≡ k j h = ground arith

  mark-Confined :
      (c : Call) (id now : ℕ) (fate : Fate) (t : Table) (j : Key)
      → Confined c j (get_item t j) (get_item (mark db c.action.idempotency_key id now fate t).1 j)
  unfolding mark
  mark-Confined c id now fate t j =
      let k = idempotency c.action.idempotency_key in
      let i = claim_row (record { action_id = id; created_at = now }) in
      ground (arith, key_eq-≡ k j, get_item-put_absent k i t j)

  block_written :
      (id key : ℕ) (reason : Text) (now : ℕ) (fate : Fate) (t : Table) (j : Key)
      → let after = get_item (write_block_new_entries db id key reason now fate t).1 j in
        (after ≡ get_item t j) ⊎ (j ≡ entry_block_key) × (is_blocking after ≡ true)
  unfolding write_block_new_entries entry_block_item
  block_written id key reason now fate t j =
      let i = entry_block_row (entry_block_item true reason id key now) in
      ground (arith, key_eq-≡ entry_block_key j, get_item-put_item entry_block_key i t j)

  kill_written :
      (id key : ℕ) (reason : Text) (now : ℕ) (fate : Fate) (t : Table) (j : Key)
      → let after = get_item (write_kill_switch_active db id key reason now fate t).1 j in
        (after ≡ get_item t j) ⊎ (j ≡ kill_switch_key) × (is_active after ≡ true)
  unfolding write_kill_switch_active kill_switch_item
  kill_written id key reason now fate t j =
      let i =
        kill_switch_row
          (kill_switch_item true reason safe_actions now (some now) none (some (id, key))) in
      ground (arith, key_eq-≡ kill_switch_key j, get_item-put_item kill_switch_key i t j)

  -- After a write, the rest of the handler only claims the key.
  pub after_write-Confined :
      (count : Counters → Counters) (c : Call) (ex : Executor) (w : Bool × Table) (j : Key)
      → Confined c j (get_item w.1 j) (get_item (after_write db count c ex w).table j)
  unfolding after_write
  after_write-Confined count c ex (true, t) j =
      ground (arith, mark-Confined c c.action.action_id c.course.now c.course.mark_fate t j)
  after_write-Confined count c ex (false, t) j = inl refl

  block-Confined :
      (c : Call) (ex : Executor) (t : Table) (j : Key)
      → c.action.action_type ≡ block_new_entries
      → Confined c j (get_item t j) (get_item (handle_block_new_entries db c ex t).table j)
  unfolding handle_block_new_entries stub
  block-Confined c ex t j is_block = ground (
    arith,
    block_written c.action.action_id c.action.idempotency_key (reason_or_effect c) c.course.now
        c.course.write_fate t j,
    after_write-Confined count_block c ex (block_write db c t) j,
  )

  kill-Confined :
      (c : Call) (ex : Executor) (t : Table) (j : Key)
      → c.action.action_type ≡ activate_kill_switch
      → Confined c j (get_item t j) (get_item (handle_activate_kill_switch db c ex t).table j)
  unfolding handle_activate_kill_switch stub
  kill-Confined c ex t j is_kill = ground (
    arith,
    kill_written c.action.action_id c.action.idempotency_key (reason_or_effect c) c.course.now
        c.course.write_fate t j,
    after_write-Confined count_kill c ex (kill_write db c t) j,
  )

  handler_map_block :
      (type : ActionType) → handler_map type ≡ block_handler → type ≡ block_new_entries
  unfolding handler_map
  handler_map_block type h = ground arith

  handler_map_kill :
      (type : ActionType) → handler_map type ≡ kill_handler → type ≡ activate_kill_switch
  unfolding handler_map
  handler_map_kill type h = ground arith

  dispatch-Confined :
      (h : Handler) (c : Call) (ex : Executor) (t : Table) (j : Key)
      → handler_map c.action.action_type ≡ h
      → Confined c j (get_item t j) (get_item (dispatch db h c ex t).table j)
  unfolding dispatch handle_send_alert handle_generate_runbook_command handle_read_runtime_state
      stub
  dispatch-Confined alert_handler c ex t j e = inl refl
  dispatch-Confined runbook_handler c ex t j e = inl refl
  dispatch-Confined state_handler c ex t j e = inl refl
  dispatch-Confined block_handler c ex t j e =
      block-Confined c ex t j (handler_map_block c.action.action_type e)
  dispatch-Confined kill_handler c ex t j e =
      kill-Confined c ex t j (handler_map_kill c.action.action_type e)
  dispatch-Confined no_handler c ex t j e = inl refl

  -- One call changes at most three items of the table: it sets the entry block or it activates the
  -- kill switch, each only for the action of that type, and it claims its own key if nobody has.
  pub execute-Confined :
      (c : Call) (ex : Executor) (t : Table) (j : Key)
      → Confined c j (get_item t j) (get_item (execute db c ex t).table j)
  unfolding execute human_gate durable_gate memory_gate precondition_gate
      handle_generate_runbook_command dispatch_gate
  execute-Confined c ex t j =
      ground (arith, dispatch-Confined (handler_map c.action.action_type) c ex t j refl)

  -- Calls of any number of executors, each in the state that it is in by then.
  unfoldable pub history : List (Executor × Call) → Table → Table
  history [] t = t
  history ((ex, c) ∷ calls) t = history calls (execute db c ex t).table

  -- Nothing that the safe actions do clears the kill switch or the entry block, or takes a claimed
  -- key away, in any sequence of calls on any executors.
  pub nothing_is_cleared :
      (calls : List (Executor × Call)) (t : Table) (key : ℕ) (claim : Item)
      → let t' = history calls t in
        ((is_active (get_item t kill_switch_key) ≡ false)
          ⊎ (is_active (get_item t' kill_switch_key) ≡ true))
        × ((is_blocking (get_item t entry_block_key) ≡ false)
            ⊎ (is_blocking (get_item t' entry_block_key) ≡ true))
        × ((get_item t (idempotency key) ≢ some claim)
            ⊎ (get_item t' (idempotency key) ≡ some claim))
  unfolding history
  nothing_is_cleared [] t key claim = ground arith
  nothing_is_cleared ((ex, c) ∷ calls) t key claim =
      let next = (execute db c ex t).table in
      ground (
        arith,
        nothing_is_cleared calls next key claim,
        execute-Confined c ex t kill_switch_key,
        execute-Confined c ex t entry_block_key,
        execute-Confined c ex t (idempotency key),
      )
