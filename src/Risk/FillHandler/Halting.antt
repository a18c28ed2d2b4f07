-- ===== src/Risk/FillHandler/Halting.antt =====
-- service.py: a fill that brings the day to its limit stops the engine.
use quant_embrace_v.Common.{ℕ, ◌≡◌, refl, true, false, none, some, List, ◌∷◌, ◌++◌, arith, ◌==◌, ℤ}
use quant_embrace_v.Execution.Orders.Database.{Fate, answered}
use quant_embrace_v.Execution.SafeActions.RiskState.{
  KillSwitchItem, kill_switch_item, kill_switch_row, kill_switch_key, RiskTable,
}
use quant_embrace_v.Risk.Signals.{Signal}
use quant_embrace_v.Risk.DailyLoss.Fills.{PnlTable}
use quant_embrace_v.Risk.KillSwitch.{KillSwitch, activate, persist_state}
use quant_embrace_v.Risk.KillSwitch.Cache.{Cache, polls}
use quant_embrace_v.Risk.KillSwitch.Cache.Polling.{HasRow, seen_by, halt_reaches_engine}
use quant_embrace_v.Risk.Pipeline.{RiskEngine, Observation, validate_signal}
use quant_embrace_v.Risk.FillHandler.{
  FillEvent, FillNames, Course, total_of, loss_of_fill, fill_accounting, Engine, is_breach,
  after_recording, recorded, handle_fill,
}

module _ (names : FillNames) (pnl : PnlTable) (db : RiskTable) where
  abbrev written : ℕ → KillSwitchItem
  unfolding kill_switch_item
  written now = kill_switch_item true loss_of_fill fill_accounting now (some now) none none

  activated_row :
      (now : ℕ) (k : KillSwitch) (t : db.Table)
      → k.active ≡ false
      → HasRow db (written now) (activate db loss_of_fill fill_accounting now answered k t).1
  unfolding activate persist_state kill_switch_item
  activated_row now k t off = ground (
    arith,
    off,
    db.get_item-put_item kill_switch_key (kill_switch_row (written now)) t kill_switch_key,
  )

  breach_row :
      (c : Course) (f : FillEvent) (z : ℤ) (e : Engine names pnl db)
      → is_breach names pnl db f.market e.books z ≡ true
      → e.switch.active ≡ false
      → c.persist_fate ≡ answered
      → HasRow db (written c.now) (after_recording names pnl db c f z e).risk_rows
  unfolding after_recording
  breach_row c f z e breach off seen =
      rw (breach, seen) (activated_row c.now e.switch e.risk_rows off)

  -- The engine after the recording of a fill.
  abbrev pub booked : Course → FillEvent → ℕ → Engine names pnl db → Engine names pnl db
  booked c f price e =
      let (b, answer, rows) = recorded names pnl db c f price e in
      record e { books = b; pnl_rows = rows }

  breach_active :
      (c : Course) (f : FillEvent) (z : ℤ) (e : Engine names pnl db)
      → is_breach names pnl db f.market e.books z ≡ true
      → e.switch.active ≡ false
      → (after_recording names pnl db c f z e).switch.active ≡ true
  unfolding after_recording activate
  breach_active c f z e breach off = ground (arith, breach, off)

  handled :
      (c : Course) (f : FillEvent) (price : ℕ) (z : ℤ) (e : Engine names pnl db)
      → f.avg_fill_price ≡ some price
      → (f.quantity_filled == 0) ≡ false
      → total_of (recorded names pnl db c f price e).1 ≡ some z
      → handle_fill names pnl db c f e ≡ after_recording names pnl db c f z (booked c f price e)
  unfolding handle_fill
  handled c f price z e priced filled total = rw (priced, filled, total) refl

  -- A fill with a price and a quantity, for an inactive switch and with the write of the switch answered:
  -- if its recording returns a result of the day that reaches the limit, under the limits and the value
  -- of the portfolio after the fill, the switch of the engine becomes active, and the halt is in the
  -- table: from the next poll of a running cache that is answered, and through all later ones, the
  -- validation of every signal rejects it. The fill can be counted by this call or be a duplicate.
  pub breach_stops_signals :
      (c : Course) (f : FillEvent) (price : ℕ) (z : ℤ) (e : Engine names pnl db)
      (earlier later : List Fate) (k : KillSwitch) (cache : Cache) (o : Observation) (s : Signal)
      (risk : RiskEngine)
      → f.avg_fill_price ≡ some price
      → (f.quantity_filled == 0) ≡ false
      → total_of (recorded names pnl db c f price e).1 ≡ some z
      → is_breach names pnl db f.market (recorded names pnl db c f price e).0 z ≡ true
      → e.switch.active ≡ false
      → c.persist_fate ≡ answered
      → cache.running ≡ true
      → let t = (handle_fill names pnl db c f e).risk_rows in
        let seen = polls db (earlier ++ answered ∷ later) k cache t in
        ((handle_fill names pnl db c f e).switch.active ≡ true)
        × ((validate_signal db o s (seen_by risk seen) t).1.approved ≡ false)
  unfolding written
  breach_stops_signals c f price z e earlier later k cache o s risk priced filled total breach off
        seen running =
      let e' = booked c f price e in
      let row : HasRow db (written c.now) (handle_fill names pnl db c f e).risk_rows =
        rw (handled c f price z e priced filled total) (breach_row c f z e' breach off seen) in
      let active : (handle_fill names pnl db c f e).switch.active ≡ true =
        rw (handled c f price z e priced filled total) (breach_active c f z e' breach off) in
      (
        active,
        (halt_reaches_engine db earlier later (written c.now) k cache
            (handle_fill names pnl db c f e).risk_rows o s risk row refl running).0,
      )
