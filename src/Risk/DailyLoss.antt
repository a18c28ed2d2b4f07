-- ===== src/Risk/DailyLoss.antt =====
-- services/risk_engine/validators/loss_validator.py: the cache of the realized result, and the daily
-- loss against its limit. Clocks are in milliseconds, percentages in hundredths, and a result is an
-- integer. Fills has the accounting of the fills.
pub mod Fills
pub mod Balance
pub mod Accounting
pub mod Counting
pub mod Samples
mod Tests
use quant_embrace_v.Common.{
  ℕ, ◌+◌, ◌*◌, Bool, true, false, not, Option, none, some, List, [], ◌∷◌, ◌&&◌, ◌||◌, ltb, leb,
  ◌==◌, ℤ, pos, above, below, difference, ◌+ℤ◌, if◌then◌else◌,
}
use quant_embrace_v.Risk.Limits.{RiskLimits, get_limit, get_portfolio_value, max_daily_loss_pct}
use quant_embrace_v.Risk.Signals.{
  Signal, RiskValidationResult, result, daily_loss, risk_data_unavailable_result,
}
use quant_embrace_v.Risk.Validators.Position.{PositionItem, quantity_of}

pub record LossValidator : Type 0 where
  pub cached_realized : ℤ
  pub cache_date : Option ℕ
  pub fetched_at : ℕ

unfoldable pub new : LossValidator
new = record { cached_realized = pos 0; cache_date = none; fetched_at = 0 }

abbrev pub pnl_cache_ttl : ℕ
pnl_cache_ttl = 30000

-- The attribute `realized_pnl` of an item; a missing one is zero.
abbrev or_zero : Option ℤ → ℤ
or_zero none = pos 0
or_zero (some z) = z

unfoldable pub sum_realized : List (Option ℤ) → ℤ
sum_realized [] = pos 0
sum_realized (z ∷ zs) = or_zero z +ℤ sum_realized zs

-- The pages of the query over the filled orders of the day; none is a page whose read raises.
unfoldable pub sum_order_pages : List (Option (List (Option ℤ))) → Option ℤ
sum_order_pages [] = some (pos 0)
sum_order_pages (page ∷ pages) =
    let rest = sum_order_pages pages in
    elim page [
      | some zs ↦ elim rest [ some z ↦ some (sum_realized zs +ℤ z) | none ↦ none ]
      | none ↦ none
    ]

-- What the reads of one validation give: the row of the day (none if the read raises), the orders,
-- and the pages of the positions.
pub record PnlReads : Type 0 where
  pub day_read : Option (Option (Option ℤ))
  pub order_pages : List (Option (List (Option ℤ)))
  pub position_pages : List (Option (List PositionItem))

unfoldable pub fetch_realized_pnl_from_db : PnlReads → Option ℤ
fetch_realized_pnl_from_db r = elim r.day_read [
  | none ↦ none
  | some none ↦ sum_order_pages r.order_pages
  | some (some z) ↦ some (or_zero z)
]

abbrev price_of : Option ℕ → ℕ
price_of none = 0
price_of (some p) = p

-- `qty * (last_price - avg_price)`.
abbrev pub unrealized_of : PositionItem → ℤ
unrealized_of i =
    let q = quantity_of i in
    let last = price_of i.last_price in
    let avg = price_of i.avg_price in
    difference (above q * last + below q * avg) (above q * avg + below q * last)

unfoldable pub sum_unrealized : List PositionItem → ℤ
sum_unrealized [] = pos 0
sum_unrealized (i ∷ is) = unrealized_of i +ℤ sum_unrealized is

unfoldable pub get_unrealized_pnl : List (Option (List PositionItem)) → Option ℤ
get_unrealized_pnl [] = some (pos 0)
get_unrealized_pnl (page ∷ pages) =
    let rest = get_unrealized_pnl pages in
    elim page [
      | some is ↦ elim rest [ some z ↦ some (sum_unrealized is +ℤ z) | none ↦ none ]
      | none ↦ none
    ]

unfoldable pub rehydrate : ℕ → ℕ → PnlReads → LossValidator → LossValidator × Bool
rehydrate now today r v = elim (fetch_realized_pnl_from_db r) [
  | some z ↦ (record { cached_realized = z; cache_date = some today; fetched_at = now }, true)
  | none ↦ (v, false)
]

abbrev is_today : ℕ → Option ℕ → Bool
is_today today none = false
is_today today (some d) = today == d

-- The cached result, where it is of today and not expired.
unfoldable pub get_realized_pnl : ℕ → ℕ → PnlReads → LossValidator → LossValidator × Option ℤ
get_realized_pnl now today r v =
    if is_today today v.cache_date && ltb now (v.fetched_at + pnl_cache_ttl)
    then (v, some v.cached_realized)
    else elim (fetch_realized_pnl_from_db r) [
      | some z ↦ (record { cached_realized = z; cache_date = some today; fetched_at = now }, some z)
      | none ↦ (v, none)
    ]

unfoldable pub get_daily_pnl : ℕ → ℕ → PnlReads → LossValidator → LossValidator × Option ℤ
get_daily_pnl now today r v =
    let (v', realized) = get_realized_pnl now today r v in
    elim realized [
      | none ↦ (v', none)
      | some z ↦ elim (get_unrealized_pnl r.position_pages) [
        | some u ↦ (v', some (z +ℤ u))
        | none ↦ (v', none)
      ]
    ]

-- Whether a result is a loss that reaches the limit, a percentage of the portfolio.
abbrev pub reaches_limit : ℕ → ℕ → ℤ → Bool
reaches_limit pct portfolio z = ltb 0 (below z) && leb (portfolio * pct) (below z * 10000)

abbrev judge_loss : RiskLimits → Signal → Option ℤ → RiskValidationResult
judge_loss l s none = risk_data_unavailable_result s daily_loss
judge_loss l s (some z) =
    let portfolio = get_portfolio_value l in
    if portfolio == 0
    then risk_data_unavailable_result s daily_loss
    else result (not (reaches_limit (get_limit max_daily_loss_pct (some s.market) l) portfolio z))
        daily_loss

unfoldable pub validate_loss :
    ℕ → ℕ → PnlReads → RiskLimits → Signal → LossValidator → LossValidator × RiskValidationResult
validate_loss now today r l s v =
    let (v', total) = get_daily_pnl now today r v in (v', judge_loss l s total)
