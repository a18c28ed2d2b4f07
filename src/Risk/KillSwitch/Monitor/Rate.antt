-- ===== src/Risk/KillSwitch/Monitor/Rate.antt =====
-- auto_triggers.py: the order rate against the orders of the window.
use quant_embrace_v.Common.{ℕ, ◌<◌, ◌≡◌, ◌↔◌, refl, ◌∙◌, true, false, List, [], ◌∷◌, arith, length}
use quant_embrace_v.Execution.Orders.Database.{Fate}
use quant_embrace_v.Execution.SafeActions.RiskState.{RiskTable}
use quant_embrace_v.Strategy.CircuitBreaker.{evict}
use quant_embrace_v.Strategy.CircuitBreaker.Window.{IsAscending, recent, evict-eq-recent}
use quant_embrace_v.Risk.KillSwitch.{KillSwitch, activate}
use quant_embrace_v.Risk.KillSwitch.Monitor.{Monitor, drain, trigger, monitor_order_rate}

drain-eq-evict : (window now : ℕ) (ts : List ℕ) → drain window now ts ≡ evict window now ts
unfolding drain evict
drain-eq-evict window now [] = refl
drain-eq-evict window now (t ∷ ts) = ground (arith, drain-eq-evict window now ts)

drain-eq-recent :
    (window now : ℕ) (ts : List ℕ) → IsAscending ts → drain window now ts ≡ recent window now ts
drain-eq-recent window now ts h = drain-eq-evict window now ts ∙ evict-eq-recent window now ts h

module _ (db : RiskTable) where
  open db use {Table}

  -- A turn of the order-rate monitor, with the orders recorded in the order of their times, activates a
  -- switch that is inactive exactly when more orders than the limit are no older than the window, and
  -- keeps just the orders of the window.
  pub order_rate_fires_iff :
      (now : ℕ) (fate : Fate) (m : Monitor) (k : KillSwitch) (t : Table)
      → IsAscending m.order_timestamps
      → k.active ≡ false
      → let (m', k', t') = monitor_order_rate db now fate m k t in
        let orders = recent m.order_rate_window now m.order_timestamps in
        ((k'.active ≡ true) ↔ (m.order_rate_limit < length orders)) × (m'.order_timestamps ≡ orders)
  unfolding monitor_order_rate trigger activate
  order_rate_fires_iff now fate m k t asc off =
      let kept = drain-eq-recent m.order_rate_window now m.order_timestamps asc in
      ground (arith, kept)
