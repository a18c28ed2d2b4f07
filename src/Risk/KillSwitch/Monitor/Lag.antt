-- ===== src/Risk/KillSwitch/Monitor/Lag.antt =====
-- auto_triggers.py: the clocks of the consumer lag after a deactivation.
use quant_embrace_v.Common.{ℕ, ◌+◌, ◌≤◌, ◌≡◌, refl, true, false, List, [], ◌∷◌, arith, All}
use quant_embrace_v.Execution.Orders.Database.{Fate}
use quant_embrace_v.Execution.SafeActions.RiskState.{RiskTable}
use quant_embrace_v.Risk.KillSwitch.{KillSwitch}
use quant_embrace_v.Risk.KillSwitch.Monitor.{
  Monitor, put_at, record_data_tick, is_stale, any_stale, reset_clocks, trigger,
  monitor_consumer_lag, Turn,
}

-- A signal of a market, or a turn of the monitor.
pub data Event : Type 0 where
  ticked : ℕ → ℕ → Event
  checked : ℕ → Fate → Event

abbrev pub time_of : Event → ℕ
time_of (ticked market now) = now
time_of (checked now fate) = now

-- No clock shows an earlier time.
abbrev pub NoneBefore : ℕ → List (ℕ × ℕ) → Type 0
NoneBefore cleared [] = Unit
NoneBefore cleared ((market, seen) ∷ rest) = (cleared ≤ seen) × NoneBefore cleared rest

reset_clocks-NoneBefore : (now : ℕ) (ticks : List (ℕ × ℕ)) → NoneBefore now (reset_clocks now ticks)
reset_clocks-NoneBefore now [] = tt
reset_clocks-NoneBefore now ((market, seen) ∷ rest) =
    (ground arith, reset_clocks-NoneBefore now rest)

put_at-NoneBefore :
    (cleared market now : ℕ) (ticks : List (ℕ × ℕ))
    → cleared ≤ now
    → NoneBefore cleared ticks
    → NoneBefore cleared (put_at market now ticks)
unfolding put_at
put_at-NoneBefore cleared market now [] le h = (le, tt)
put_at-NoneBefore cleared market now ((m, seen) ∷ rest) le h =
    ground (arith, put_at-NoneBefore cleared market now rest le h.1)

fresh_never_stale :
    (cleared timeout now : ℕ) (ticks : List (ℕ × ℕ))
    → now ≤ cleared + timeout
    → NoneBefore cleared ticks
    → any_stale timeout now ticks ≡ false
unfolding any_stale is_stale
fresh_never_stale cleared timeout now [] le h = refl
fresh_never_stale cleared timeout now ((m, seen) ∷ rest) le h =
    ground (arith, fresh_never_stale cleared timeout now rest le h.1)

module _ (db : RiskTable) where
  open db use {Table}

  unfoldable pub happen : Event → Turn db → Turn db
  happen (ticked market now) (m, k, t) = (record_data_tick market now m, k, t)
  happen (checked now fate) (m, k, t) = monitor_consumer_lag db now fate m k t

  unfoldable pub happen_all : List Event → Turn db → Turn db
  happen_all [] w = w
  happen_all (e ∷ es) w = happen_all es (happen e w)

  -- The switch is off and known to be off, and no clock is before the time of its clearing.
  abbrev IsCleared : ℕ → ℕ → KillSwitch → Table → Turn db → Type 0
  IsCleared cleared timeout k t (m, k', t') =
      (k' ≡ k)
      × (t' ≡ t)
      × (k.active ≡ false)
      × (m.ks_was_active ≡ false)
      × (m.consumer_lag_timeout ≡ timeout)
      × NoneBefore cleared m.last_tick

  happen-IsCleared :
      (cleared timeout : ℕ) (k : KillSwitch) (t : Table) (e : Event) (w : Turn db)
      → cleared ≤ time_of e
      → time_of e ≤ cleared + timeout
      → IsCleared cleared timeout k t w
      → IsCleared cleared timeout k t (happen e w)
  unfolding happen record_data_tick monitor_consumer_lag trigger
  happen-IsCleared cleared timeout k t (ticked market now) (m, k', t') from to h =
      let (a, b, c, d, e, none_before) = h in
      (a, b, c, d, e, put_at-NoneBefore cleared market now m.last_tick from none_before)
  happen-IsCleared cleared timeout k t (checked now fate) (m, k', t') from to h =
      let (a, b, c, d, e, none_before) = h in
      ground (
        arith,
        fresh_never_stale cleared m.consumer_lag_timeout now m.last_tick (ground (arith, e))
            none_before,
      )

  happen_all-IsCleared :
      (cleared timeout : ℕ) (k : KillSwitch) (t : Table) (es : List Event) (w : Turn db)
      → All (λ e. (cleared ≤ time_of e) × (time_of e ≤ cleared + timeout)) es
      → IsCleared cleared timeout k t w
      → IsCleared cleared timeout k t (happen_all es w)
  unfolding happen_all
  happen_all-IsCleared cleared timeout k t [] w times h = h
  happen_all-IsCleared cleared timeout k t (e ∷ es) w times h =
      happen_all-IsCleared cleared timeout k t es (happen e w) times.1
        (happen-IsCleared cleared timeout k t e w times.0.0 times.0.1 h)

  clearing-IsCleared :
      (now : ℕ) (fate : Fate) (m : Monitor) (k : KillSwitch) (t : Table)
      → m.ks_was_active ≡ true
      → k.active ≡ false
      → IsCleared now m.consumer_lag_timeout k t (happen (checked now fate) (m, k, t))
  unfolding happen monitor_consumer_lag trigger
  clearing-IsCleared now fate m k t was off =
      let fresh = reset_clocks-NoneBefore now m.last_tick in
      ground (
        arith,
        fresh,
        fresh_never_stale now m.consumer_lag_timeout now (reset_clocks now m.last_tick)
            (ground arith) fresh,
      )

  -- Where an earlier turn of the monitor of the consumer lag has found the switch active, a deactivation
  -- does not lead to a halt by this monitor at once: its first turn that finds the switch off, and each
  -- turn up to the timeout after it, whatever signals come in between, leaves the switch and the table
  -- as they are.
  pub cleared_switch_holds :
      (now : ℕ) (fate : Fate) (es : List Event) (m : Monitor) (k : KillSwitch) (t : Table)
      → m.ks_was_active ≡ true
      → k.active ≡ false
      → All (λ e. (now ≤ time_of e) × (time_of e ≤ now + m.consumer_lag_timeout)) es
      → let (m', k', t') = happen_all (checked now fate ∷ es) (m, k, t) in (k' ≡ k) × (t' ≡ t)
  unfolding happen_all
  cleared_switch_holds now fate es m k t was off times =
      let first = happen (checked now fate) (m, k, t) in
      let h =
        happen_all-IsCleared now m.consumer_lag_timeout k t es first times
          (clearing-IsCleared now fate m k t was off) in
      (h.0, h.1)
