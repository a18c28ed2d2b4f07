-- ===== src/Execution/Exit/Router.antt =====
-- exit_order_router.py: the lock on the position's row, and the three modes. The broker's answer to
-- the order and the outcome of the order manager's fill are what happens in one call, `Course`.
use quant_embrace_v.Common.{
  ℕ, Bool, true, false, not, ◌&&◌, Option, none, some, ◌==◌, if◌then◌else◌, is_some,
}
use quant_embrace_v.Execution.Orders.Database.{Fate, seen}
use quant_embrace_v.Execution.Exit.Models.{
  ExitTriggerType, ExitId, ExitOrderRequest, stop_loss, take_profit, mis_close, kill_switch,
  trailing, breakeven, partial_profit, final_target, time_exit,
}
use quant_embrace_v.Execution.Exit.Positions.{Row, not_flat, PositionTable}

pub data TradingMode : Type 0 where
  paper live backtest : TradingMode

abbrev pub is_live : TradingMode → Bool
is_live paper = false
is_live live = true
is_live backtest = false

pub record Router : Type 0 where
  pub mode : TradingMode
  pub has_broker : Bool
  pub live_enabled : Bool
  pub has_order_manager : Bool

-- `place_order` returns, is still out when the time is up, or raises: with no order in the market, or
-- after the order has reached the broker. The code sees no difference between the last two.
pub data BrokerReply : Type 0 where
  placed timed_out refused lost : BrokerReply

pub record Course (T : Type 0) : Type 0 where
  pub lock_fate : Fate
  pub broker : BrokerReply
  pub release_fate : Fate
  pub fill_raises : Bool
  pub fill : T → T  -- what `apply_fill_to_position` does to the table

pub record Routed (T : Type 0) : Type 0 where
  pub result : Bool
  pub sent : Option BrokerReply  -- the answer to an order that went out
  pub table : T

abbrev trigger_code : ExitTriggerType → ℕ
trigger_code stop_loss = 0
trigger_code take_profit = 1
trigger_code mis_close = 2
trigger_code kill_switch = 3
trigger_code trailing = 4
trigger_code breakeven = 5
trigger_code partial_profit = 6
trigger_code final_target = 7
trigger_code time_exit = 8

abbrev pub same_exit : ExitId → ExitId → Bool
same_exit a b =
    (a.symbol == b.symbol)
    && (trigger_code a.trigger == trigger_code b.trigger)
    && (a.session_date == b.session_date)

abbrev pub holds_lock : ExitId → Row → Bool
holds_lock id r = elim r.exit_order_id [ none ↦ false | some held ↦ same_exit held id ]

-- The condition of the lock.
abbrev pub may_lock : ExitOrderRequest → Row → Bool
may_lock q r = if q.is_kill_switch then not_flat r else not (is_some r.exit_order_id) && not_flat r

abbrev pub lock : ExitOrderRequest → Row → Row
lock q r = record r { exit_order_id = some q.exit_id; exit_trigger = some q.trigger_type }

abbrev pub unlock : Row → Row
unlock r = record r { exit_order_id = none; exit_trigger = none }

module _ (db : PositionTable) where
  open db use {Table, update_if}

  -- An error of any kind counts as not acquired.
  unfoldable pub acquire_exit_lock : ExitOrderRequest → Fate → Table → Bool × Table
  acquire_exit_lock q fate t =
      let (reply, t') = seen fate t (update_if q.symbol (may_lock q) (lock q) t) in
      elim reply [ none ↦ (false, t') | some b ↦ (b, t') ]

  unfoldable pub release_exit_lock : ExitOrderRequest → Fate → Table → Table
  release_exit_lock q fate t = (seen fate t (update_if q.symbol (holds_lock q.exit_id) unlock t)).1

  unfoldable pub route_paper : Router → ExitOrderRequest → Course Table → Table → Routed Table
  route_paper r q c t =
      if r.has_order_manager
      then record { result = not c.fill_raises; sent = none; table = c.fill t }
      else record { result = true; sent = none; table = t }

  unfoldable pub route_live : Router → ExitOrderRequest → Course Table → Table → Routed Table
  route_live r q c t =
      if r.has_broker
      then elim c.broker [
        | placed ↦ record { result = true; sent = some placed; table = t }
        | timed_out ↦ record { result = false; sent = some timed_out; table = t }
        | refused ↦ record {
          result = false;
          sent = some refused;
          table = release_exit_lock q c.release_fate t;
        }
        | lost ↦ record {
          result = false;
          sent = some lost;
          table = release_exit_lock q c.release_fate t;
        }
      ]
      else record { result = false; sent = none; table = release_exit_lock q c.release_fate t }

  unfoldable pub route_backtest : Table → Routed Table
  route_backtest t = record { result = true; sent = none; table = t }

  unfoldable pub route : Router → ExitOrderRequest → Course Table → Table → Routed Table
  route r q c t =
      if is_live r.mode && not r.live_enabled
      then record { result = false; sent = none; table = t }
      else (let (acquired, t') = acquire_exit_lock q c.lock_fate t in
          if acquired
          then elim r.mode [
            | paper ↦ route_paper r q c t'
            | live ↦ route_live r q c t'
            | backtest ↦ route_backtest t'
          ]
          else record { result = false; sent = none; table = t' })
