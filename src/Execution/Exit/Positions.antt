-- ===== src/Execution/Exit/Positions.antt =====
-- The positions table as the exit path uses it: the attributes of a row that the engine and the
-- router read or write, and what they rely on of DynamoDB's conditional update, which is atomic.
use quant_embrace_v.Common.{
  ℕ, Bool, true, false, Option, none, some, ◌&&◌, ◌==◌, ◌≡◌, if◌then◌else◌, ℤ,
}
use quant_embrace_v.Execution.Exit.Models.{
  Direction, long, short, flat, unknown, ExitId, ExitTriggerType,
}

-- `exit_state`: TRAILING_ACTIVE, or another state by its number.
pub data ExitState : Type 0 where
  trailing_active : ExitState
  other_state : ℕ → ExitState

pub record Row : Type 0 where
  pub direction : Direction
  pub quantity : Option ℤ
  pub avg_price : Option ℕ
  pub avg_entry_price : Option ℕ
  pub stop_price : Option ℕ
  pub take_profit : Option ℕ
  pub last_price : Option ℕ
  pub exit_order_id : Option ExitId
  pub exit_trigger : Option ExitTriggerType
  pub exit_state : Option ExitState

-- The row that an update makes where there is none.
abbrev pub blank : Row
blank = record {
  direction = unknown;
  quantity = none;
  avg_price = none;
  avg_entry_price = none;
  stop_price = none;
  take_profit = none;
  last_price = none;
  exit_order_id = none;
  exit_trigger = none;
  exit_state = none;
}

abbrev pub row_of : Option Row → Row
row_of none = blank
row_of (some r) = r

-- `direction <> :flat`, which holds of a row without the attribute.
abbrev pub not_flat : Row → Bool
not_flat r = elim r.direction [ long ↦ true | short ↦ true | flat ↦ false | unknown ↦ true ]

pub record PositionTable : Type 1 where
  pub Table : Type 0
  pub get_item : Table → ℕ → Option Row
  pub update_if : ℕ → (Row → Bool) → (Row → Row) → Table → Bool × Table
  pub update_if_reply :
      (symbol : ℕ) (holds : Row → Bool) (change : Row → Row) (t : Table)
      → (update_if symbol holds change t).0 ≡ holds (row_of (get_item t symbol))
  pub get_item-update_if :
      (symbol : ℕ) (holds : Row → Bool) (change : Row → Row) (t : Table) (other : ℕ)
      → get_item (update_if symbol holds change t).1 other ≡ (
          if holds (row_of (get_item t symbol)) && (symbol == other)
          then some (change (row_of (get_item t symbol)))
          else get_item t other)
