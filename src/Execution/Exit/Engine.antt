-- ===== src/Execution/Exit/Engine.antt =====
-- trade_exit_engine.py: what one evaluation of a position decides, and the write of a trailing stop. Percentages are
-- in hundredths of a percent, and the product of a price with one is rounded down; ages are in milliseconds.
use quant_embrace_v.Common.{
  ℕ, ◌+◌, ◌-◌, ◌*◌, ◌/◌, max, min, Bool, true, false, not, ◌&&◌, ◌||◌, Option, none, some, ltb, leb,
  ◌==◌, ℤ, abs, if◌then◌else◌, is_some,
}
use quant_embrace_v.Execution.Orders.Database.{Fate, seen}
use quant_embrace_v.Execution.Exit.Models.{
  Direction, long, short, flat, unknown, ExitTriggerType, stop_loss, take_profit, trailing, ExitId,
}
use quant_embrace_v.Execution.Exit.Positions.{
  Row, ExitState, trailing_active, other_state, not_flat, PositionTable,
}

pub record Engine : Type 0 where
  pub trailing_enabled : Bool
  pub trailing_activation_pct : ℕ
  pub trailing_stop_pct : ℕ
  pub max_stale_ltp_live : ℕ
  pub is_live : Bool  -- the router's mode

-- The dict that `_parse_position` gives.
pub record Position : Type 0 where
  pub direction : Direction
  pub quantity : ℤ
  pub avg_price : ℕ
  pub stop_price : ℕ
  pub take_profit : Option ℕ
  pub last_price : Option ℕ
  pub exit_order_id : Option ExitId
  pub exit_state : Option ExitState

-- What LtpResolver gives: the price, whether it is stale, and its age if known.
pub record LtpResult : Type 0 where
  pub price : ℕ
  pub is_stale : Bool
  pub age : Option ℕ

abbrev or_zero : Option ℕ → Option ℕ → ℕ
or_zero (some v) _ = v
or_zero none (some v) = v
or_zero none none = 0

unfoldable pub parse_position : Row → Option Position
parse_position r = elim r.quantity [
  | none ↦ none
  | some q ↦ elim r.stop_price [
    | none ↦ none
    | some stop ↦
        if abs q == 0
        then none
        else some (record {
          direction = r.direction;
          quantity = q;
          avg_price = or_zero r.avg_price r.avg_entry_price;
          stop_price = stop;
          take_profit = r.take_profit;
          last_price = r.last_price;
          exit_order_id = r.exit_order_id;
          exit_state = r.exit_state;
        })
  ]
]

unfoldable pub stop_loss_triggered : Direction → ℕ → ℕ → Bool
stop_loss_triggered long last stop = leb last stop
stop_loss_triggered short last stop = leb stop last
stop_loss_triggered flat last stop = false
stop_loss_triggered unknown last stop = false

unfoldable pub take_profit_triggered : Direction → ℕ → ℕ → Bool
take_profit_triggered long last target = leb target last
take_profit_triggered short last target = leb last target
take_profit_triggered flat last target = false
take_profit_triggered unknown last target = false

unfoldable pub trailing_activation_triggered : Direction → ℕ → ℕ → ℕ → Bool
trailing_activation_triggered long last entry pct = leb (entry * 10000 + entry * pct) (last * 10000)
trailing_activation_triggered short last entry pct =
    leb (last * 10000 + entry * pct) (entry * 10000)
trailing_activation_triggered flat last entry pct = false
trailing_activation_triggered unknown last entry pct = false

-- A percentage above 100 makes a negative candidate, which `max` discards as it does 0.
unfoldable pub compute_trailing_stop : Direction → ℕ → ℕ → ℕ → ℕ
compute_trailing_stop long last stop pct = max stop (last * (10000 - pct) / 10000)
compute_trailing_stop short last stop pct = min stop (last * (10000 + pct) / 10000)
compute_trailing_stop flat last stop pct = stop
compute_trailing_stop unknown last stop pct = stop

-- What an evaluation does: nothing, an exit at a price, or the write of a stop.
pub data Decision : Type 0 where
  wait : Decision
  fire : ExitTriggerType → ℕ → Decision
  write_stop : ℕ → Decision

abbrev pub is_trailing : Option ExitState → Bool
is_trailing (some trailing_active) = true
is_trailing (some (other_state _)) = false
is_trailing none = false

unfoldable pub activate_trailing_stop : Engine → Position → ℕ → Decision
activate_trailing_stop e p last =
    write_stop (compute_trailing_stop p.direction last p.stop_price e.trailing_stop_pct)

unfoldable pub advance_trailing_stop : Engine → Position → ℕ → Decision
advance_trailing_stop e p last =
    let stop = compute_trailing_stop p.direction last p.stop_price e.trailing_stop_pct in
    if stop == p.stop_price then wait else write_stop stop

unfoldable pub manage_trailing_stop : Engine → Position → ℕ → Decision
manage_trailing_stop e p last =
    if is_trailing p.exit_state
    then advance_trailing_stop e p last
    else if trailing_activation_triggered p.direction last p.avg_price e.trailing_activation_pct
    then activate_trailing_stop e p last
    else wait

-- `age_seconds or inf`: an age of zero counts as unknown.
abbrev is_older : Option ℕ → ℕ → Bool
is_older none limit = true
is_older (some age) limit = (age == 0) || ltb limit age

unfoldable pub get_last_price : Engine → Option LtpResult → Option ℕ
get_last_price e none = none
get_last_price e (some r) =
    if r.is_stale && e.is_live && is_older r.age e.max_stale_ltp_live then none else some r.price

-- `take_profit is not None and exit_state != "TRAILING_ACTIVE" and …`
abbrev pub hits : Direction → Option ExitState → ℕ → Option ℕ → Bool
hits direction state last none = false
hits direction state last (some target) =
    not (is_trailing state) && take_profit_triggered direction last target

abbrev pub or_price : Option ℕ → ℕ → ℕ
or_price none last = last
or_price (some v) last = v

-- The part of `_evaluate_exit_conditions` after the price.
unfoldable pub evaluate_at : Engine → Position → ℕ → Decision
evaluate_at e p last =
    if stop_loss_triggered p.direction last p.stop_price
    then fire (if is_trailing p.exit_state then trailing else stop_loss) last
    else if hits p.direction p.exit_state last p.take_profit
    then fire take_profit (or_price p.take_profit last)
    else if e.trailing_enabled
    then manage_trailing_stop e p last
    else wait

unfoldable pub evaluate_exit_conditions : Engine → Option LtpResult → Position → Decision
evaluate_exit_conditions e ltp p =
    if is_some p.exit_order_id
    then wait
    else elim (get_last_price e ltp) [ none ↦ wait | some last ↦ evaluate_at e p last ]

abbrev pub set_trailing : ℕ → Row → Row
set_trailing stop r = record r { stop_price = some stop; exit_state = some trailing_active }

-- `#dir <> :flat AND attribute_exists(stop_price)`, parsed.
unfoldable pub scanned : Option Row → Option Position
scanned none = none
scanned (some r) = if not_flat r && is_some r.stop_price then parse_position r else none

module _ (db : PositionTable) where
  open db use {Table, get_item, update_if}

  unfoldable pub write_trailing_stop : ℕ → ℕ → Fate → Table → Table
  write_trailing_stop symbol stop fate t =
      (seen fate t (update_if symbol not_flat (set_trailing stop) t)).1

  unfoldable pub carry_out : ℕ → Fate → Decision → Table → Table
  carry_out symbol fate wait t = t
  carry_out symbol fate (fire _ _) t = t
  carry_out symbol fate (write_stop stop) t = write_trailing_stop symbol stop fate t

  -- One cycle for one symbol, an exit left to the router: the scan's filter, the row, the decision
  -- and the write of a stop. No one else writes between the scan and the write.
  unfoldable pub check_position : Engine → ℕ → Option LtpResult → Fate → Table → Table
  check_position e symbol ltp fate t = elim (scanned (get_item t symbol)) [
    | none ↦ t
    | some p ↦ carry_out symbol fate (evaluate_exit_conditions e ltp p) t
  ]
