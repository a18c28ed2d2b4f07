-- ===== src/Execution/SafeActions/Tests.antt =====
-- The safe actions on a table that is a function from keys, and their theorems at a kill-switch
-- action that runs, is repeated, and is repeated again after a restart.
use quant_embrace_v.Common.{
  ◌+◌, ◌≤◌, ◌≡◌, ◌≢◌, ◌⊎◌, refl, true, false, not, ◌&&◌, Option, none, some, [], ◌∷◌, is_some,
  if◌then◌else◌,
}
use quant_embrace_v.Execution.Orders.Database.{answered}
use quant_embrace_v.Execution.SafeActions.Models.{
  SafeAction, activate_kill_switch, block_new_entries, risk_reduction, live_stage_1, other_service,
}
use quant_embrace_v.Execution.SafeActions.Policy.{
  always_forbidden_types, mode_allowed_scopes, mode_denied_types, always_human_gated_scopes,
  always_human_gated_types, is_allowed, needs_approval, paper_only_types,
}
use quant_embrace_v.Execution.SafeActions.RiskState.{
  Key, key_eq, Item, claim_row, RiskTable, kill_switch_key, entry_block_key, idempotency,
  write_kill_switch_active, kill_switch_item,
}
use quant_embrace_v.Execution.SafeActions.Executor.{
  Executor, Call, Course, new, execute, write_action_types, human_gate, durable_gate, memory_gate,
  precondition_gate, dispatch_gate, dispatch, handler_map, handle_activate_kill_switch, after_write,
  mark, check, write_audit, Done,
}
use quant_embrace_v.Execution.SafeActions.Authority.{
  is_active, is_blocking, history, Authorised, execute-Authorised, nothing_is_cleared,
}
use quant_embrace_v.Execution.SafeActions.Once.{times_executed, executed_once, restart_skips}

abbrev Rows : Type 0
Rows = Key → Option Item

abbrev memory : RiskTable
memory = record {
  Table = Rows;
  get_item = λ t k. t k;
  put_item = λ k i t j. if key_eq k j then some i else t j;
  put_absent = λ k i t.
      (not (is_some (t k)), λ j. if not (is_some (t k)) && key_eq k j then some i else t j);
  get_item-put_item = λ k i t j. refl;
  put_absent_reply = λ k i t. refl;
  get_item-put_absent = λ k i t j. refl;
}

abbrev empty : Rows
empty k = none

abbrev kill : SafeAction
kill = record {
  action_id = 31;
  action_type = activate_kill_switch;
  scope = risk_reduction;
  mode = live_stage_1;
  requires_human_approval = false;
  idempotency_key = 7;
  subject = other_service;
  expected_effect = some 1;
}

abbrev quiet : Course
quiet = record {
  check_fate = answered;
  write_fate = answered;
  mark_fate = answered;
  notified = true;
  now = 100;
}

abbrev call : Call
call = record { action = kill; reason = none; preconditions_met = true; course = quiet }

abbrev agent : Executor
agent = new live_stage_1 true true true

abbrev first : Done Rows
first = execute memory call agent empty

first_runs :
    (first.result.executed ≡ true)
    × (is_active (first.table kill_switch_key) ≡ true)
    × (is_some (first.table (idempotency 7)) ≡ true)
unfolding execute human_gate durable_gate memory_gate precondition_gate dispatch_gate dispatch
    handler_map handle_activate_kill_switch after_write mark check write_audit new is_allowed
    needs_approval write_action_types write_kill_switch_active kill_switch_item
    always_forbidden_types mode_allowed_scopes mode_denied_types paper_only_types
    always_human_gated_scopes always_human_gated_types
first_runs = (refl, refl, refl)

execute-Authorised_example : (first.table ≡ empty) ⊎ Authorised memory call agent
execute-Authorised_example = execute-Authorised memory call agent empty

abbrev blocks : Call
blocks = record call {
  action = record kill { action_type = block_new_entries; idempotency_key = 8 };
}

abbrev claim : Item
claim = claim_row (record { action_id = 31; created_at = 100 })

nothing_is_cleared_example :
    let t = first.table in
    let t' = history memory ((agent, blocks) ∷ (first.executor, call) ∷ []) t in
    ((is_active (t kill_switch_key) ≡ false) ⊎ (is_active (t' kill_switch_key) ≡ true))
    × ((is_blocking (t entry_block_key) ≡ false) ⊎ (is_blocking (t' entry_block_key) ≡ true))
    × ((t (idempotency 7) ≢ some claim) ⊎ (t' (idempotency 7) ≡ some claim))
nothing_is_cleared_example =
    nothing_is_cleared memory ((agent, blocks) ∷ (first.executor, call) ∷ []) first.table 7 claim

executed_once_example :
    times_executed memory 7 ((call, empty) ∷ (call, first.table) ∷ (call, empty) ∷ []) agent + 0 ≤ 1
unfolding new
executed_once_example =
    executed_once memory 7 ((call, empty) ∷ (call, first.table) ∷ (call, empty) ∷ []) agent

restart_skips_example :
    let later = history memory ((agent, blocks) ∷ []) first.table in
    ((execute memory call agent later).result.executed ≡ false)
    × ((execute memory call agent later).table ≡ later)
unfolding write_action_types
restart_skips_example =
    restart_skips memory call call agent agent ((agent, blocks) ∷ []) empty (unfold new in refl)
      refl refl first_runs.0 (unfold new in refl) refl refl refl
