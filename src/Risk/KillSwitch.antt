-- ===== src/Risk/KillSwitch.antt =====
-- services/risk_engine/killswitch/killswitch.py over the risk-state table of the safe actions. An
-- activation and a deactivation run one at a time, under the lock of the instance; the SNS messages that
-- they send are counted by kind. The two requests of a method run side by side and do not look at each
-- other. load_state takes no lock, and is a read and what is done with it: other methods can run
-- between the two.
pub mod Persistence
pub mod Cache
pub mod Monitor
mod Tests
use quant_embrace_v.Common.{ℕ, ◌+◌, Bool, true, false, not, Option, none, some, if◌then◌else◌}
use quant_embrace_v.Execution.Orders.Database.{Fate, answered, lost_before, lost_after}
use quant_embrace_v.Execution.SafeActions.RiskState.{
  Text, Item, kill_switch_row, entry_block_row, claim_row, KillSwitchItem, kill_switch_item,
  kill_switch_key, RiskTable, put_seen,
}

pub record KillSwitch : Type 0 where
  pub active : Bool
  pub activated_at : Option ℕ
  pub reason : Text
  pub activated_by : ℕ
  pub activations_sent : ℕ
  pub deactivations_sent : ℕ

-- `"unknown"` and the empty string, as names of an actor.
abbrev pub unknown : ℕ
unknown = 1

abbrev pub nobody : ℕ
nobody = 2

unfoldable pub new : KillSwitch
new = record {
  active = false;
  activated_at = none;
  reason = none;
  activated_by = unknown;
  activations_sent = 0;
  deactivations_sent = 0;
}

module _ (db : RiskTable) where
  open db use {Table, get_item, put_item}

  -- `_persist_state` gives every error away.
  unfoldable pub persist_state : ℕ → Fate → KillSwitch → Table → Table
  unfolding kill_switch_item
  persist_state now fate k t =
      let item =
        kill_switch_item k.active k.reason k.activated_by now k.activated_at
          (if k.active then none else some now) none in
      (put_seen fate t (put_item kill_switch_key (kill_switch_row item) t)).1

  unfoldable pub activate : Text → ℕ → ℕ → Fate → KillSwitch → Table → KillSwitch × Table
  activate reason by now fate k t =
      let k' : KillSwitch = record k {
        active = true;
        activated_at = some now;
        reason = reason;
        activated_by = by;
        activations_sent = k.activations_sent + 1;
      } in
      if k.active then (k, t) else (k', persist_state now fate k' t)

  unfoldable pub deactivate : ℕ → Fate → KillSwitch → Table → KillSwitch × Table
  deactivate now fate k t =
      let k' : KillSwitch = record k {
        active = false;
        activated_at = none;
        reason = none;
        activated_by = nobody;
        deactivations_sent = k.deactivations_sent + 1;
      } in
      if k.active then (k', persist_state now fate k' t) else (k, t)

  -- A row with a time of activation brings it; without one, only an inactive switch forgets its own.
  abbrev loaded : Item → KillSwitch → KillSwitch
  loaded (kill_switch_row i) k = record k {
    active = i.active;
    activated_at = elim i.activated_at [
      | some at ↦ some at
      | none ↦ if i.active then k.activated_at else none
    ];
    reason = i.reason;
    activated_by = i.activated_by;
  }
  loaded (entry_block_row _) k = k
  loaded (claim_row _) k = k

  -- The read of `load_state`: none if there is no row or the read fails.
  abbrev pub read_state : Fate → Table → Option Item
  read_state answered t = get_item t kill_switch_key
  read_state lost_before t = none
  read_state lost_after t = none

  -- A missing row or a failed read leaves the switch as it is.
  abbrev pub take_state : Option Item → KillSwitch → KillSwitch
  take_state none k = k
  take_state (some i) k = loaded i k

  -- A load between whose read and end no other method runs.
  unfoldable pub load_state : Fate → KillSwitch → Table → KillSwitch
  load_state fate k t = take_state (read_state fate t) k
