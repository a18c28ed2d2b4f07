-- ===== src/Risk/KillSwitch/Monitor.antt =====
-- services/risk_engine/killswitch/auto_triggers.py: one turn of each monitor, after its sleep, in a loop
-- that runs. Times are in milliseconds since the epoch, percentages in hundredths; a market and a
-- strategy are numbers. The texts of the reasons are numbers too.
pub mod Rate
pub mod Lag
mod Tests
use quant_embrace_v.Common.{
  ℕ, ◌+◌, ◌*◌, ◌/◌, ◌%◌, Bool, true, false, not, ◌&&◌, ◌||◌, Option, none, some, List, [], ◌∷◌,
  ◌++◌, map, ltb, leb, ◌==◌, length, ℤ, pos, negsuc, abs, if◌then◌else◌,
}
use quant_embrace_v.Execution.Orders.Database.{Fate}
use quant_embrace_v.Execution.SafeActions.RiskState.{Text, RiskTable}
use quant_embrace_v.Risk.KillSwitch.{KillSwitch, activate}

-- The entries of `_strategy_pnl` and `_strategy_capital` for one strategy.
pub record StrategyResult : Type 0 where
  pub pnl : ℤ
  pub capital : ℤ

pub record Monitor : Type 0 where
  pub order_rate_limit : ℕ
  pub order_rate_window : ℕ
  pub broker_timeout : Option ℕ  -- none is infinite
  pub consumer_lag_timeout : ℕ
  pub producer_heartbeat_timeout : ℕ
  pub strategy_loss_pct : ℕ
  pub start_time : ℕ
  pub order_timestamps : List ℕ
  pub last_broker_ping : Option ℕ
  pub broker_connected : Bool
  pub last_tick : List (ℕ × ℕ)
  pub ks_was_active : Bool
  pub strategy_pnl : List (ℕ × StrategyResult)

abbrev startup_grace : ℕ
startup_grace = 600000

unfoldable pub record_order : ℕ → Monitor → Monitor
record_order now m = record m { order_timestamps = m.order_timestamps ++ (now ∷ []) }

unfoldable pub record_broker_ping : ℕ → Monitor → Monitor
record_broker_ping now m = record m { last_broker_ping = some now; broker_connected = true }

-- `d[key] = value`: in the place of the key, or at the end.
unfoldable pub put_at : {A : Type 0} → ℕ → A → List (ℕ × A) → List (ℕ × A)
put_at key v [] = (key, v) ∷ []
put_at key v ((k, x) ∷ rest) =
    let rest' = put_at key v rest in if k == key then (k, v) ∷ rest else (k, x) ∷ rest'

unfoldable pub record_data_tick : ℕ → ℕ → Monitor → Monitor
record_data_tick market now m = record m { last_tick = put_at market now m.last_tick }

unfoldable pub record_strategy_pnl : ℕ → ℤ → ℤ → Monitor → Monitor
record_strategy_pnl strategy pnl capital m = record m {
  strategy_pnl = put_at strategy (record { pnl = pnl; capital = capital }) m.strategy_pnl;
}

-- `_is_market_hours`, by the minute of the day, UTC.
unfoldable pub is_market_hours : ℕ → Bool
is_market_hours now =
    let minute = (now / 60000) % 1440 in
    (leb 210 minute && leb minute 630) || (leb 810 minute && leb minute 1200)

-- The timestamps that the loop of the order rate leaves.
unfoldable pub drain : ℕ → ℕ → List ℕ → List ℕ
drain window now [] = []
drain window now (t ∷ ts) =
    let rest = drain window now ts in if ltb (t + window) now then rest else t ∷ ts

unfoldable pub is_stale : ℕ → ℕ → ℕ → Bool
is_stale timeout now seen = ltb (seen + timeout) now

unfoldable pub lost_broker : ℕ → Monitor → Bool
lost_broker now m = elim m.last_broker_ping [
  | none ↦ false
  | some seen ↦ elim m.broker_timeout [
    | none ↦ false
    | some timeout ↦ m.broker_connected && is_stale timeout now seen
  ]
]

unfoldable pub any_stale : ℕ → ℕ → List (ℕ × ℕ) → Bool
any_stale timeout now [] = false
any_stale timeout now ((market, seen) ∷ rest) =
    is_stale timeout now seen || any_stale timeout now rest

abbrev pub reset_clocks : ℕ → List (ℕ × ℕ) → List (ℕ × ℕ)
reset_clocks now ticks = map (λ (market, seen). (market, now)) ticks

abbrev pub after_grace : ℕ → Monitor → Bool
after_grace now m = is_market_hours now && leb (m.start_time + startup_grace) now

-- The items of `HEARTBEAT#NSE` and `HEARTBEAT#US`: none is a read that failed, some none an item without
-- a time that can be read.
unfoldable pub dead_producer : ℕ → ℕ → List (Option (Option ℕ)) → Bool
dead_producer timeout now [] = false
dead_producer timeout now (some (some seen) ∷ rest) =
    is_stale timeout now seen || dead_producer timeout now rest
dead_producer timeout now (some none ∷ rest) = dead_producer timeout now rest
dead_producer timeout now (none ∷ rest) = dead_producer timeout now rest

-- A loss of a part of a capital that is more than zero.
unfoldable pub reaches_loss : ℕ → StrategyResult → Bool
reaches_loss pct r = elim r.capital [
  | negsuc _ ↦ false
  | pos capital ↦ elim r.pnl [
    | pos _ ↦ false
    | negsuc n ↦ ltb 0 capital && leb (pct * capital) (abs (negsuc n) * 10000)
  ]
]

unfoldable pub any_loss : ℕ → List (ℕ × StrategyResult) → Bool
any_loss pct [] = false
any_loss pct ((strategy, r) ∷ rest) = reaches_loss pct r || any_loss pct rest

module _ (db : RiskTable) where
  open db use {Table}

  abbrev pub Turn : Type 0
  Turn = Monitor × KillSwitch × Table

  -- An activation under the number of a monitor, if its test says so.
  unfoldable pub trigger : Bool → ℕ → ℕ → Fate → Monitor → KillSwitch → Table → Turn
  trigger fires monitor now fate m k t =
      let (k', t') = activate db (some monitor) monitor now fate k t in
      if fires then (m, k', t') else (m, k, t)

  unfoldable pub monitor_order_rate : ℕ → Fate → Monitor → KillSwitch → Table → Turn
  monitor_order_rate now fate m k t =
      let m' = record m { order_timestamps = drain m.order_rate_window now m.order_timestamps } in
      let turn = trigger (ltb m.order_rate_limit (length m'.order_timestamps)) 11 now fate m' k t in
      if k.active then (m, k, t) else turn

  unfoldable pub monitor_broker_connectivity : ℕ → Fate → Monitor → KillSwitch → Table → Turn
  monitor_broker_connectivity now fate m k t =
      let turn = trigger (lost_broker now m) 12 now fate m k t in
      if k.active then (m, k, t) else turn

  unfoldable pub monitor_consumer_lag : ℕ → Fate → Monitor → KillSwitch → Table → Turn
  monitor_consumer_lag now fate m k t =
      let ticks =
        if m.ks_was_active && not k.active then reset_clocks now m.last_tick else m.last_tick in
      let m' = record m { last_tick = ticks; ks_was_active = k.active } in
      let turn =
        trigger (after_grace now m && any_stale m.consumer_lag_timeout now ticks) 13 now fate m' k
          t in
      if k.active then (m', k, t) else turn

  unfoldable pub monitor_producer_heartbeat :
      ℕ → List (Option (Option ℕ)) → Fate → Monitor → KillSwitch → Table → Turn
  monitor_producer_heartbeat now reads fate m k t =
      let turn =
        trigger (after_grace now m && dead_producer m.producer_heartbeat_timeout now reads) 14 now
          fate m k t in
      if k.active then (m, k, t) else turn

  unfoldable pub monitor_strategy_loss : ℕ → Fate → Monitor → KillSwitch → Table → Turn
  monitor_strategy_loss now fate m k t =
      let turn = trigger (any_loss m.strategy_loss_pct m.strategy_pnl) 15 now fate m k t in
      if k.active then (m, k, t) else turn
