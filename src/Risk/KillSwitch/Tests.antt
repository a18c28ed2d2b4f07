-- ===== src/Risk/KillSwitch/Tests.antt =====
-- killswitch.py: an activation, a restart, and an activation by the safe actions.
use quant_embrace_v.Common.{
  ◌≡◌, refl, true, false, not, ◌&&◌, Option, none, some, List, [], ◌∷◌, is_some, if◌then◌else◌,
}
use quant_embrace_v.Execution.Orders.Database.{answered}
use quant_embrace_v.Execution.SafeActions.Models.{
  activate_kill_switch, risk_reduction, live_stage_1, other_service,
}
use quant_embrace_v.Execution.SafeActions.Policy.{
  is_allowed, needs_approval, always_forbidden_types, mode_allowed_scopes, mode_denied_types,
  paper_only_types, always_human_gated_scopes, always_human_gated_types,
}
use quant_embrace_v.Execution.SafeActions.RiskState.{
  Key, key_eq, Item, RiskTable, write_kill_switch_active, kill_switch_item,
}
use quant_embrace_v.Execution.SafeActions.Executor
use quant_embrace_v.Execution.SafeActions.Executor.{
  Executor, Course, execute, human_gate, durable_gate, memory_gate, precondition_gate,
  dispatch_gate, dispatch, handler_map, handle_activate_kill_switch, after_write, mark, check,
  write_audit, write_action_types,
}
use quant_embrace_v.Execution.SafeActions.Authority.{history}
use quant_embrace_v.Risk.KillSwitch.{
  KillSwitch, new, persist_state, activate, deactivate, load_state,
}
use quant_embrace_v.Risk.KillSwitch.Persistence.{
  Call, activates, deactivates, loads, perform, perform_all, IsSaved, restart_restores,
  safe_action_halts,
}

abbrev Rows : Type 0
Rows = Key → Option Item

abbrev memory : RiskTable
memory = record {
  Table = Rows;
  get_item = λ t k. t k;
  put_item = λ k i t j. if key_eq k j then some i else t j;
  put_absent = λ k i t.
      (not (is_some (t k)), λ j. if not (is_some (t k)) && key_eq k j then some i else t j);
  get_item-put_item = λ k i t j. refl;
  put_absent_reply = λ k i t. refl;
  get_item-put_absent = λ k i t j. refl;
}

abbrev empty : Rows
empty k = none

abbrev calls : List Call
calls =
    activates (some 4) 9 100 answered
    ∷ deactivates 200 answered
    ∷ activates (some 5) 9 300 answered
    ∷ loads answered
    ∷ []

abbrev ended : KillSwitch × Rows
ended = perform_all memory calls new empty

state_at_the_end : (ended.0.active ≡ true) × (ended.0.activated_at ≡ some 300)
unfolding perform_all perform activate deactivate load_state persist_state kill_switch_item new
state_at_the_end = (refl, refl)

restart_restores_example : IsSaved memory ended.0 ended.1
restart_restores_example =
    restart_restores memory calls new empty (refl, (refl, (refl, (refl, tt))))
      (unfold load_state in (refl, refl, refl))

abbrev call : Executor.Call
call = record {
  action = record {
    action_id = 31;
    action_type = activate_kill_switch;
    scope = risk_reduction;
    mode = live_stage_1;
    requires_human_approval = false;
    idempotency_key = 7;
    subject = other_service;
    expected_effect = some 1;
  };
  reason = none;
  preconditions_met = true;
  course = record {
    check_fate = answered;
    write_fate = answered;
    mark_fate = answered;
    notified = true;
    now = 100;
  };
}

abbrev agent : Executor
agent = Executor.new live_stage_1 true true true

runs : (execute memory call agent empty).result.executed ≡ true
unfolding execute human_gate durable_gate memory_gate precondition_gate dispatch_gate dispatch
    handler_map handle_activate_kill_switch after_write mark check write_audit Executor.new
    is_allowed needs_approval write_action_types write_kill_switch_active kill_switch_item
    always_forbidden_types mode_allowed_scopes mode_denied_types paper_only_types
    always_human_gated_scopes always_human_gated_types
runs = refl

safe_action_halts_example :
    (load_state memory answered new
      (history memory ((agent, call) ∷ []) (execute memory call agent empty).table)).active
    ≡ true
safe_action_halts_example =
    safe_action_halts memory call agent ((agent, call) ∷ []) new empty refl runs
