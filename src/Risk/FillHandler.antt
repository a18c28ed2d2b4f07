-- ===== src/Risk/FillHandler.antt =====
-- services/risk_engine/service.py: _handle_fill, over the daily loss, the monitors and the kill switch.
-- The rows of the daily result and the row of the switch are two tables here, since neither of the two
-- components touches the rows of the other.
pub mod Halting
mod Tests
use quant_embrace_v.Common.{
  ℕ, Bool, true, false, ◌||◌, Option, none, some, ◌==◌, ℤ, pos, if◌then◌else◌,
}
use quant_embrace_v.Execution.Orders.Database.{Fate}
use quant_embrace_v.Execution.SafeActions.RiskState.{Text, RiskTable}
use quant_embrace_v.Risk.Limits.{Market, max_daily_loss_pct, get_limit, get_portfolio_value}
use quant_embrace_v.Risk.Signals.{Direction}
use quant_embrace_v.Risk.DailyLoss.{PnlReads, reaches_limit}
use quant_embrace_v.Risk.DailyLoss.Fills.{
  PnlTable, Fill, Fates, Books, Recorded, raised, duplicate, counted, record_fill,
}
use quant_embrace_v.Risk.KillSwitch.{KillSwitch, activate}
use quant_embrace_v.Risk.KillSwitch.Monitor.{Monitor, record_broker_ping, record_strategy_pnl}

pub record FillEvent : Type 0 where
  pub raw_topic : ℕ
  pub raw_partition : ℕ
  pub raw_offset : ℕ
  pub symbol : ℕ
  pub market : Market
  pub direction : Direction
  pub strategy_id : ℕ
  pub quantity_filled : ℕ
  pub avg_fill_price : Option ℕ

-- `f"{topic}:{partition}:{offset}"`, as a number for each text.
pub record FillNames : Type 0 where
  pub name_of : ℕ → ℕ → ℕ → ℕ

-- The clocks, the reads and the writes of one call.
pub record Course : Type 0 where
  pub now : ℕ
  pub mono : ℕ
  pub today : ℕ
  pub opening : ℕ
  pub reads : PnlReads
  pub fates : Fates
  pub persist_fate : Fate

-- `pnl_update["total_daily_pnl"]`, if the recording returns.
abbrev pub total_of : Recorded → Option ℤ
total_of raised = none
total_of (duplicate z) = some z
total_of (counted d z) = some z

-- The reason, and `daily_loss_fill_accounting`.
abbrev pub loss_of_fill : Text
loss_of_fill = some 16

abbrev pub fill_accounting : ℕ
fill_accounting = 16

module _ (names : FillNames) (pnl : PnlTable) (db : RiskTable) where
  pub record Engine : Type 0 where
    pub books : Books
    pub monitor : Monitor
    pub switch : KillSwitch
    pub pnl_rows : pnl.Table
    pub risk_rows : db.Table

  abbrev pub is_breach : Market → Books → ℤ → Bool
  is_breach market b z =
      reaches_limit (get_limit max_daily_loss_pct (some market) b.limits)
        (get_portfolio_value b.limits) z

  -- After the recording: the reports to the monitors, and the limit on the result of the day.
  unfoldable pub after_recording : Course → FillEvent → ℤ → Engine → Engine
  after_recording c f z e =
      let portfolio = pos (get_portfolio_value e.books.limits) in
      let m = record_strategy_pnl f.strategy_id z portfolio (record_broker_ping c.now e.monitor) in
      let (k, t) =
        activate db loss_of_fill fill_accounting c.now c.persist_fate e.switch e.risk_rows in
      let e' = record e { monitor = m } in
      if is_breach f.market e.books z then record e' { switch = k; risk_rows = t } else e'

  abbrev pub fill_of : FillEvent → ℕ → Fill
  fill_of f price = record {
    fill_id = names.name_of f.raw_topic f.raw_partition f.raw_offset;
    symbol = f.symbol;
    direction = f.direction;
    quantity = f.quantity_filled;
    price = price;
  }

  abbrev pub recorded : Course → FillEvent → ℕ → Engine → Books × Recorded × pnl.Table
  recorded c f price e =
      record_fill pnl c.mono c.today c.opening c.reads c.fates (fill_of f price) e.books e.pnl_rows

  -- An error of the recording is logged.
  unfoldable pub handle_fill : Course → FillEvent → Engine → Engine
  handle_fill c f e = elim f.avg_fill_price [
    | none ↦ e
    | some price ↦
        let (b, answer, rows) = recorded c f price e in
        let e' : Engine = record e { books = b; pnl_rows = rows } in
        let done : Engine = elim (total_of answer) [
          | none ↦ e'
          | some z ↦ after_recording c f z e'
        ] in
        if f.quantity_filled == 0 then e else done
  ]
