-- ===== src/Risk/Validators/EntryBlock.antt =====
-- services/risk_engine/validators/entry_block_validator.py over the risk-state table, whose row the
-- safe actions write. The source of a block is left out with the texts.
use quant_embrace_v.Common.{
  ℕ, ◌+◌, Bool, true, false, not, Option, none, some, ◌&&◌, ltb, if◌then◌else◌,
}
use quant_embrace_v.Execution.Orders.Database.{Fate, answered, lost_before, lost_after}
use quant_embrace_v.Execution.SafeActions.RiskState.{
  Text, Item, kill_switch_row, entry_block_row, claim_row, entry_block_key, RiskTable,
}
use quant_embrace_v.Risk.Signals.{
  Signal, RiskValidationResult, result, entry_block, is_paper_signal,
}

pub record EntryBlockValidator : Type 0 where
  pub paper_profile : Bool
  pub fail_closed : Bool
  pub ttl : ℕ
  pub blocked : Bool
  pub reason : Text
  pub action_id : Option ℕ
  pub read_ok : Bool
  pub cached_at : ℕ

-- The profile is "paper" or another one; the override of `fail_closed` may be None.
unfoldable pub new_entry_block : Bool → Option Bool → ℕ → EntryBlockValidator
new_entry_block paper override ttl = record {
  paper_profile = paper;
  fail_closed = elim override [ some o ↦ o | none ↦ not paper ];
  ttl = ttl;
  blocked = false;
  reason = none;
  action_id = none;
  read_ok = true;
  cached_at = 0;
}

unfoldable pub invalidate : EntryBlockValidator → EntryBlockValidator
invalidate v = record v { cached_at = 0 }

-- The fields that a successful read sets. A row of another kind has none of the attributes.
unfoldable pub take_item : Option Item → EntryBlockValidator → EntryBlockValidator
take_item (some (entry_block_row i)) v = record v {
  blocked = i.blocked;
  reason = i.reason;
  action_id = some i.action_id;
  read_ok = true;
}
take_item (some (kill_switch_row i)) v = record v {
  blocked = false;
  reason = i.reason;
  action_id = elim i.detail [ some (id, key) ↦ some id | none ↦ none ];
  read_ok = true;
}
take_item (some (claim_row i)) v = record v {
  blocked = false;
  reason = none;
  action_id = some i.action_id;
  read_ok = true;
}
take_item none v = record v { blocked = false; reason = none; action_id = none; read_ok = true }

module _ (db : RiskTable) where
  open db use {Table, get_item}

  unfoldable pub read_entry_block : Fate → Table → Option (Option Item)
  read_entry_block answered t = some (get_item t entry_block_key)
  read_entry_block lost_before t = none
  read_entry_block lost_after t = none

  -- A failed read keeps the time of the cache, so that the next signal tries again.
  unfoldable pub refresh_entry_block : ℕ → Fate → Table → EntryBlockValidator → EntryBlockValidator
  refresh_entry_block now fate t v =
      if ltb now (v.cached_at + v.ttl) then v else elim (read_entry_block fate t) [
        | some item ↦ record (take_item item v) { cached_at = now }
        | none ↦ record v { read_ok = false }
      ]

  unfoldable pub validate_entry_block :
      ℕ → Fate → Table → Signal → EntryBlockValidator → EntryBlockValidator × RiskValidationResult
  validate_entry_block now fate t s v =
      let v' = refresh_entry_block now fate t v in
      let verdict = if v'.read_ok then not v'.blocked else not v'.fail_closed in
      if s.is_closeout
      then (v, result true entry_block)
      else if is_paper_signal s && v.paper_profile
      then (v, result true entry_block)
      else (v', result verdict entry_block)
