-- ===== src/Risk/Validators/Bounds.antt =====
-- The validators, for a signal that is not on paper: an approval means that the data was there, and that
-- the limit is kept. Limits that are percentages are multiplied out.
use quant_embrace_v.Common.{
  ℕ, ◌+◌, ◌*◌, ◌≤◌, ◌<◌, ◌≡◌, ◌⊎◌, inl, inr, true, false, Option, none, some, List, arith, ℤ, above,
  below, Option-cases,
}
use quant_embrace_v.Execution.Orders.Status.{OrderStatus}
use quant_embrace_v.Risk.Limits.{
  RiskLimits, get_limit, get_portfolio_value, max_position_size_pct, max_total_exposure_pct,
  max_single_order_value, max_position_per_symbol, max_daily_loss_pct, max_sector_exposure_pct,
}
use quant_embrace_v.Risk.Signals.{
  Signal, Validator, position, exposure, margin, slippage, daily_loss, risk_data_unavailable_result,
  signal_notional, is_paper_signal,
}
use quant_embrace_v.Risk.Validators.Age.{AgeValidator, validate_age}
use quant_embrace_v.Risk.Validators.Context.{
  RiskContext, Thresholds, threshold, proposed_sector_exposure, get_sector,
}
use quant_embrace_v.Risk.Validators.Position.{
  PositionItem, proposed_quantity, get_confirmed_position, get_pending_quantity, judge_position,
  get_total_exposure, judge_exposure, validate_position, validate_exposure,
}
use quant_embrace_v.Risk.Validators.Margin.{
  MarginItem, MarginValidator, Snapshot, get_margin_snapshot, validate_margin,
}
use quant_embrace_v.Risk.Validators.Slippage.{
  SlippageValidator, get_adv, slippage_rejection, validate_slippage,
}
use quant_embrace_v.Risk.DailyLoss.{LossValidator, PnlReads, get_daily_pnl, validate_loss}

abbrev pub Fresh : ℕ → Signal → AgeValidator → Type 0
Fresh now s v = (now ≤ s.generated_at + v.max_age) × (s.generated_at ≤ now + 2000)

abbrev pub PositionKept :
    Option (Option PositionItem)
    → (OrderStatus → Option (List (Option ℕ)))
    → RiskLimits
    → Signal
    → Type 0
PositionKept read query l s =
    (q : ℤ) × (n : ℕ) × (get_confirmed_position read ≡ some q)
    × (get_pending_quantity query ≡ some n)
    × (signal_notional s ≤ get_limit max_single_order_value (some s.market) l)
    × (above (proposed_quantity q n s) ≤ get_limit max_position_per_symbol (some s.market) l)
    × (above (proposed_quantity q n s) * s.price_at_signal * 10000
        ≤ get_limit max_position_size_pct (some s.market) l * get_portfolio_value l)

abbrev pub ExposureKept : List (Option (List PositionItem)) → RiskLimits → Signal → Type 0
ExposureKept pages l s =
    (x : ℕ) × (get_total_exposure pages ≡ some x)
    × ((x + signal_notional s) * 10000
        ≤ get_portfolio_value l * get_limit max_total_exposure_pct (some s.market) l)

abbrev pub VolumeKept : RiskContext → Thresholds → Type 0
VolumeKept c t =
    (v : ℕ) × (c.adv_20d ≡ some v)
    × (0 < v)
    × ((1000000 ≤ v) ⊎ (c.signal.quantity * 10000 ≤ threshold c.signal.symbol t * v))

abbrev pub SpreadKept : RiskContext → Thresholds → Type 0
SpreadKept c t = (x : ℕ) × (c.live_spread_bps ≡ some x) × (x ≤ threshold c.signal.symbol t)

abbrev pub SectorKept : RiskContext → Option (ℕ → Option ℕ) → RiskLimits → Type 0
SectorKept c registry l =
    (name : ℕ) × (get_sector registry c.signal.symbol ≡ some name)
    × (proposed_sector_exposure c name * 10000 ≤ get_limit max_sector_exposure_pct none l * c.nav)

abbrev pub MarginKept : ℕ → Option (Option MarginItem) → Signal → MarginValidator → Type 0
MarginKept now read s v =
    (x : Snapshot) × ((get_margin_snapshot now s.market read v).1 ≡ some (some x))
    × (signal_notional s * (100 + v.buffer_pct) ≤ (x.available_cash + x.collateral_value) * 100)

abbrev pub CostKept : Option (Option ℕ) → Signal → SlippageValidator → Type 0
CostKept read s v =
    (bid : ℕ) × (ask : ℕ) × (adv : ℕ) × (s.bid ≡ some bid)
    × (s.ask ≡ some ask)
    × (get_adv read ≡ some adv)
    × (0 < adv)
    × (ask * 10000 ≤ v.max_spread_pct * (bid + ask) + bid * 10000)
    × (s.quantity * 10000 ≤ v.max_adv_pct * adv)
    × (ask * 10000 * adv + s.quantity * 1000 * (bid + ask)
        ≤ v.max_total_cost_pct * (bid + ask) * adv + bid * 10000 * adv)

abbrev pub LossKept : ℕ → ℕ → PnlReads → RiskLimits → Signal → LossValidator → Type 0
LossKept now today r l s v =
    (z : ℤ) × ((get_daily_pnl now today r v).1 ≡ some z)
    × ((below z ≡ 0)
        ⊎ (below z * 10000
            < get_portfolio_value l * get_limit max_daily_loss_pct (some s.market) l))

pub age-Fresh :
    (now : ℕ) (s : Signal) (v : AgeValidator)
    → (validate_age now s v).approved ≡ true
    → Fresh now s v
unfolding validate_age
age-Fresh now s v h = ground arith

module _ (s : Signal) (live : s.paper_trade ≡ false) where
  pub unavailable_live : (name : Validator) → (risk_data_unavailable_result s name).approved ≡ false
  unfolding risk_data_unavailable_result is_paper_signal
  unavailable_live name = live

  pub position-Kept :
      (read : Option (Option PositionItem)) (query : OrderStatus → Option (List (Option ℕ)))
      (l : RiskLimits)
      → (validate_position read query l s).approved ≡ true
      → PositionKept read query l s
  unfolding validate_position judge_position
  position-Kept read query l h = elim (Option-cases (get_confirmed_position read)) [
    | inl e ↦ ground (arith, e, unavailable_live position)
    | inr (q, e) ↦ elim (Option-cases (get_pending_quantity query)) [
      | inl d ↦ ground (arith, e, d, unavailable_live position)
      | inr (n, d) ↦ (
        q,
        n,
        e,
        d,
        ground (arith, e, d, h, unavailable_live position),
        ground (arith, e, d, h, unavailable_live position),
        ground (arith, e, d, h, unavailable_live position),
      )
    ]
  ]

  pub exposure-Kept :
      (pages : List (Option (List PositionItem))) (l : RiskLimits)
      → (validate_exposure pages l s).approved ≡ true
      → ExposureKept pages l s
  unfolding validate_exposure judge_exposure
  exposure-Kept pages l h = elim (Option-cases (get_total_exposure pages)) [
    | inl e ↦ ground (arith, e, unavailable_live exposure)
    | inr (x, e) ↦ (x, e, ground (arith, e, h, unavailable_live exposure))
  ]

  pub margin-Kept :
      (now : ℕ) (read : Option (Option MarginItem)) (v : MarginValidator)
      → (validate_margin now read s v).1.approved ≡ true
      → MarginKept now read s v
  unfolding validate_margin
  margin-Kept now read v h = elim (Option-cases (get_margin_snapshot now s.market read v).1) [
    | inl e ↦ ground (arith, e, unavailable_live margin)
    | inr (o, e) ↦ elim (Option-cases o) [
      | inl d ↦ ground (arith, e, d, unavailable_live margin)
      | inr (x, d) ↦ (x, rw d at e, ground (arith, e, d, h))
    ]
  ]

  pub slippage-Kept :
      (read : Option (Option ℕ)) (v : SlippageValidator)
      → (validate_slippage read s v).approved ≡ true
      → CostKept read s v
  unfolding validate_slippage slippage_rejection is_paper_signal
  slippage-Kept read v h = elim (Option-cases s.bid) [
    | inl b ↦ ground (arith, b, unavailable_live slippage)
    | inr (bid, b) ↦ elim (Option-cases s.ask) [
      | inl a ↦ ground (arith, a, b, unavailable_live slippage)
      | inr (ask, a) ↦ elim (Option-cases (get_adv read)) [
        | inl d ↦ ground (arith, a, b, d, unavailable_live slippage)
        | inr (adv, d) ↦ (
          bid,
          ask,
          adv,
          b,
          a,
          d,
          ground (arith, a, b, d, live, unavailable_live slippage),
          ground (arith, a, b, d, live, unavailable_live slippage),
          ground (arith, a, b, d, live, unavailable_live slippage),
          ground (arith, a, b, d, live, unavailable_live slippage),
        )
      ]
    ]
  ]

  pub loss-Kept :
      (now today : ℕ) (r : PnlReads) (l : RiskLimits) (v : LossValidator)
      → (validate_loss now today r l s v).1.approved ≡ true
      → LossKept now today r l s v
  unfolding validate_loss
  loss-Kept now today r l v h = elim (Option-cases (get_daily_pnl now today r v).1) [
    | inl e ↦ ground (arith, e, unavailable_live daily_loss)
    | inr (z, e) ↦ (z, e, ground (arith, e, h, unavailable_live daily_loss))
  ]
