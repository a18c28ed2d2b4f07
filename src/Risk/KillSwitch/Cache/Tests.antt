-- ===== src/Risk/KillSwitch/Cache/Tests.antt =====
-- kill_switch_cache.py: a halt that another service writes, and one that is lost.
use quant_embrace_v.Common.{◌≡◌, refl, true, false, none, some, [], ◌∷◌, ◌++◌, if◌then◌else◌}
use quant_embrace_v.Execution.Orders.Database.{answered, lost_before}
use quant_embrace_v.Execution.SafeActions.RiskState.{
  KillSwitchItem, kill_switch_row, kill_switch_key, key_eq,
}
use quant_embrace_v.Risk.KillSwitch
use quant_embrace_v.Risk.KillSwitch.{activate}
use quant_embrace_v.Risk.KillSwitch.Cache.{Cache, poll, polls}
use quant_embrace_v.Risk.KillSwitch.Cache.Polling.{
  seen_by, halt_reaches_engine, unsaved_halt_undone,
}
use quant_embrace_v.Risk.Pipeline.{validate_signal}
use quant_embrace_v.Risk.Pipeline.Samples.{Rows, memory, quoted, observed, engine}

abbrev halted_row : KillSwitchItem
halted_row = record {
  active = true;
  reason = some 9;
  activated_by = 0;
  updated_at = 4000;
  activated_at = some 4000;
  deactivated_at = none;
  detail = none;
}

abbrev clear_row : KillSwitchItem
clear_row = record halted_row { active = false; activated_at = none }

abbrev with_row : KillSwitchItem → Rows
with_row i key = if key_eq kill_switch_key key then some (kill_switch_row i) else none

abbrev cold : Cache
cold = record { wired = true; cached_active = false; running = true; callbacks = 0 }

halt_reaches_engine_example :
    let after =
      polls memory
        ((lost_before ∷ []) ++ answered ∷ lost_before ∷ [])
        KillSwitch.new
        cold
        (with_row halted_row) in
    let (e, d, t) =
      validate_signal memory observed quoted (seen_by engine after) (with_row halted_row) in
    (d.approved ≡ false) × (t ≡ with_row halted_row) × (e.kill_switch.active ≡ true)
halt_reaches_engine_example =
    halt_reaches_engine memory (lost_before ∷ []) (lost_before ∷ []) halted_row KillSwitch.new cold
      (with_row halted_row) observed quoted engine refl refl refl

idle : KillSwitch.new.active ≡ false
unfolding KillSwitch.new
idle = refl

unsaved_halt_undone_example :
    let (k, t) = activate memory (some 1) 3 5000 lost_before KillSwitch.new (with_row clear_row) in
    let (k', c) = poll memory answered k cold t in
    (k.active ≡ true) × (k'.active ≡ false) × (c.cached_active ≡ false) × (c.callbacks ≡ 0)
unsaved_halt_undone_example =
    unsaved_halt_undone memory (some 1) 3 5000 clear_row KillSwitch.new cold (with_row clear_row)
      refl refl idle refl refl
