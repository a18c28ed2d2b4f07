-- ===== src/Execution/Exit/Models.antt =====
-- exit_models.py. Prices, quantities and percentages are floats there. Here a price is a whole
-- number of some unit, as fine as one likes, and a quantity a whole number of units; symbols are numbers.
use quant_embrace_v.Common.{
  above, ◌↔◌, difference, ℕ, ◌+◌, ◌<◌, ◌≡◌, ◌⊎◌, Bool, true, false, Option, none, some, ℤ, pos, abs,
  ◌+ℤ◌, ltb, if◌then◌else◌, arith,
}

pub data ExitTriggerType : Type 0 where
  stop_loss take_profit mis_close kill_switch trailing breakeven : ExitTriggerType
  partial_profit final_target time_exit : ExitTriggerType

-- The strings `LONG`, `SHORT`, `FLAT`, or another one.
pub data Direction : Type 0 where
  long short flat unknown : Direction

pub data Side : Type 0 where
  sell buy : Side

abbrev pub is_long : Direction → Bool
is_long long = true
is_long short = false
is_long flat = false
is_long unknown = false

-- The idempotency key: `EXIT-{symbol}-{market}-{trigger}-{session_date_ist}`, in one market.
pub record ExitId : Type 0 where
  pub symbol : ℕ
  pub trigger : ExitTriggerType
  pub session_date : ℕ

pub record ExitOrderRequest : Type 0 where
  pub exit_id : ExitId
  pub symbol : ℕ
  pub position_direction : Direction
  pub close_side : Side
  pub close_qty : ℕ
  pub trigger_type : ExitTriggerType
  pub exit_price : Option ℕ
  pub is_kill_switch : Bool
  pub avg_entry_price : ℕ

-- `from_position`, with the validator of `close_qty`, which refuses zero; `kill` is `is_kill_switch`.
unfoldable pub from_position :
    ℕ → Direction → ℤ → ExitTriggerType → ℕ → ℕ → Option ℕ → Bool → Option ExitOrderRequest
from_position symbol direction quantity trigger date avg price kill =
    if ltb 0 (abs quantity)
    then some (record {
      exit_id = record { symbol = symbol; trigger = trigger; session_date = date };
      symbol = symbol;
      position_direction = direction;
      close_side = if is_long direction then sell else buy;
      close_qty = abs quantity;
      trigger_type = trigger;
      exit_price = price;
      is_kill_switch = kill;
      avg_entry_price = avg;
    })
    else none

-- What the fill of an order does to a signed quantity.
abbrev pub traded : Side → ℕ → ℤ
traded buy n = pos n
traded sell n = difference 0 n

-- A request is made for every position that is not empty, for its whole size, and its fill leaves
-- nothing of the position exactly if the direction on the row agrees with the sign of the
-- quantity; where they disagree, the fill doubles the position.
pub from_position_flattens :
    (symbol : ℕ) (direction : Direction) (quantity : ℤ) (trigger : ExitTriggerType) (date avg : ℕ)
    (price : Option ℕ) (kill : Bool) (r : ExitOrderRequest)
    → from_position symbol direction quantity trigger date avg price kill ≡ some r
    → let after = quantity +ℤ traded r.close_side r.close_qty in
      (0 < r.close_qty)
      × ((after ≡ pos 0) ↔ (is_long direction ≡ ltb 0 (above quantity)))
      × ((after ≡ pos 0) ⊎ (abs after ≡ abs quantity + abs quantity))
unfolding from_position
from_position_flattens symbol direction quantity trigger date avg price kill r h = ground arith
