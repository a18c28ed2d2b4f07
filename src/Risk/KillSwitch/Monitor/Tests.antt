-- ===== src/Risk/KillSwitch/Monitor/Tests.antt =====
-- auto_triggers.py: three orders in a window of two, and a feed that is silent for the whole of a halt.
use quant_embrace_v.Common.{ℕ, ◌<◌, ◌≡◌, ◌↔◌, refl, true, false, none, [], ◌∷◌, arith, length}
use quant_embrace_v.Execution.Orders.Database.{answered}
use quant_embrace_v.Strategy.CircuitBreaker.Window.{recent}
use quant_embrace_v.Risk.KillSwitch
use quant_embrace_v.Risk.KillSwitch.{KillSwitch}
use quant_embrace_v.Risk.KillSwitch.Monitor.{
  Monitor, monitor_order_rate, monitor_consumer_lag, trigger, any_stale, is_stale, is_market_hours,
}
use quant_embrace_v.Risk.KillSwitch.Monitor.Rate.{order_rate_fires_iff}
use quant_embrace_v.Risk.KillSwitch.Monitor.Lag.{ticked, checked, happen_all, cleared_switch_holds}
use quant_embrace_v.Risk.Pipeline.Samples.{memory, empty}

-- 14:00, UTC, of some day.
abbrev noon : ℕ
noon = 50400000

abbrev monitor : Monitor
monitor = record {
  order_rate_limit = 2;
  order_rate_window = 60000;
  broker_timeout = none;
  consumer_lag_timeout = 300000;
  producer_heartbeat_timeout = 60000;
  strategy_loss_pct = 500;
  start_time = 40000000;
  order_timestamps = 50300000 ∷ 50350000 ∷ 50380000 ∷ 50390000 ∷ [];
  last_broker_ping = none;
  broker_connected = false;
  last_tick = (1, 45000000) ∷ [];
  ks_was_active = true;
  strategy_pnl = [];
}

idle : KillSwitch.new.active ≡ false
unfolding KillSwitch.new
idle = refl

order_rate_fires_iff_example :
    let (m, k, t) = monitor_order_rate memory noon answered monitor KillSwitch.new empty in
    let orders = recent 60000 noon monitor.order_timestamps in
    ((k.active ≡ true) ↔ (2 < length orders)) × (m.order_timestamps ≡ orders)
order_rate_fires_iff_example =
    order_rate_fires_iff memory noon answered monitor KillSwitch.new empty
      (
        (ground arith, (ground arith, (ground arith, tt))),
        ((ground arith, (ground arith, tt)), ((ground arith, tt), (tt, tt))),
      )
      idle

-- Without the clearing the silent feed halts.
silent_feed_halts :
    (monitor_consumer_lag memory noon answered
      (record monitor { ks_was_active = false })
      KillSwitch.new
      empty).1.active
    ≡ true
unfolding monitor_consumer_lag trigger any_stale is_stale is_market_hours KillSwitch.new
    KillSwitch.activate
silent_feed_halts = refl

cleared_switch_holds_example :
    let (m, k, t) =
      happen_all memory
        (checked noon answered ∷ ticked 2 50500000 ∷ checked 50700000 answered ∷ [])
        (monitor, KillSwitch.new, empty) in
    (k ≡ KillSwitch.new) × (t ≡ empty)
cleared_switch_holds_example =
    cleared_switch_holds memory noon answered (ticked 2 50500000 ∷ checked 50700000 answered ∷ [])
      monitor KillSwitch.new empty refl idle
      ((ground arith, ground arith), ((ground arith, ground arith), tt))
