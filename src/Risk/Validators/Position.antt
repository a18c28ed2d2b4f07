-- ===== src/Risk/Validators/Position.antt =====
-- services/risk_engine/validators/position_validator.py and exposure_validator.py. The confirmed
-- quantity of a position is negative where the position is short.
use quant_embrace_v.Common.{
  ℕ, ◌+◌, ◌*◌, false, not, Option, none, some, List, [], ◌∷◌, ltb, ◌==◌, ℤ, pos, abs, above, ◌+ℤ◌,
  if◌then◌else◌,
}
use quant_embrace_v.Execution.Orders.Status.{OrderStatus, pending, placed, partially_filled}
use quant_embrace_v.Risk.Limits.{
  RiskLimits, get_limit, get_portfolio_value, max_position_size_pct, max_total_exposure_pct,
  max_single_order_value, max_position_per_symbol,
}
use quant_embrace_v.Risk.Signals.{
  Signal, RiskValidationResult, result, position, exposure, risk_data_unavailable_result,
  signal_notional,
}

-- The attributes of a row of the positions table; a missing one is read as zero.
pub record PositionItem : Type 0 where
  pub quantity : Option ℤ
  pub avg_price : Option ℕ
  pub last_price : Option ℕ

abbrev pub or_zero : Option ℕ → ℕ
or_zero none = 0
or_zero (some n) = n

abbrev pub quantity_of : PositionItem → ℤ
quantity_of i = elim i.quantity [ some q ↦ q | none ↦ pos 0 ]

-- A read that raises, or the item, if there is one.
unfoldable pub get_confirmed_position : Option (Option PositionItem) → Option ℤ
get_confirmed_position none = none
get_confirmed_position (some none) = some (pos 0)
get_confirmed_position (some (some i)) = some (quantity_of i)

-- The quantities of a response.
unfoldable pub total_quantity : List (Option ℕ) → ℕ
total_quantity [] = 0
total_quantity (q ∷ qs) = or_zero q + total_quantity qs

abbrev pub in_flight_statuses : List OrderStatus
in_flight_statuses = pending ∷ placed ∷ partially_filled ∷ []

-- One query for each status; the first one that raises ends the loop.
unfoldable pub sum_queries : (OrderStatus → Option (List (Option ℕ))) → List OrderStatus → Option ℕ
sum_queries query [] = some 0
sum_queries query (st ∷ sts) =
    let rest = sum_queries query sts in
    elim (query st) [
      | some qs ↦ elim rest [ some n ↦ some (total_quantity qs + n) | none ↦ none ]
      | none ↦ none
    ]

unfoldable pub get_pending_quantity : (OrderStatus → Option (List (Option ℕ))) → Option ℕ
get_pending_quantity query = sum_queries query in_flight_statuses

-- What the position would be: confirmed, in flight, and the signal's own quantity.
abbrev pub proposed_quantity : ℤ → ℕ → Signal → ℤ
proposed_quantity confirmed pending_qty s = confirmed +ℤ pos (pending_qty + s.quantity)

unfoldable pub judge_position : ℤ → ℕ → RiskLimits → Signal → RiskValidationResult
judge_position confirmed pending_qty l s =
    let proposed = above (proposed_quantity confirmed pending_qty s) in
    let nav = get_portfolio_value l in
    if ltb (get_limit max_single_order_value (some s.market) l) (signal_notional s)
    then result false position
    else if ltb (get_limit max_position_per_symbol (some s.market) l) proposed
    then result false position
    else if nav == 0
    then risk_data_unavailable_result s position
    else result
        (not (
          ltb (get_limit max_position_size_pct (some s.market) l * nav)
            (proposed * s.price_at_signal * 10000)))
        position

unfoldable pub validate_position :
    Option (Option PositionItem)
    → (OrderStatus → Option (List (Option ℕ)))
    → RiskLimits
    → Signal
    → RiskValidationResult
validate_position read query l s = elim (get_confirmed_position read) [
  | some confirmed ↦ elim (get_pending_quantity query) [
    | some pending_qty ↦ judge_position confirmed pending_qty l s
    | none ↦ risk_data_unavailable_result s position
  ]
  | none ↦ risk_data_unavailable_result s position
]

abbrev pub market_value : PositionItem → ℕ
market_value i = abs (quantity_of i) * or_zero i.last_price

unfoldable pub sum_values : List PositionItem → ℕ
sum_values [] = 0
sum_values (i ∷ is) = market_value i + sum_values is

-- The pages of a scan, to the one without a `LastEvaluatedKey`; none is a page whose read raises.
unfoldable pub get_total_exposure : List (Option (List PositionItem)) → Option ℕ
get_total_exposure [] = some 0
get_total_exposure (page ∷ pages) =
    let rest = get_total_exposure pages in
    elim page [
      | some is ↦ elim rest [ some n ↦ some (sum_values is + n) | none ↦ none ]
      | none ↦ none
    ]

unfoldable pub judge_exposure : ℕ → RiskLimits → Signal → RiskValidationResult
judge_exposure current l s =
    let nav = get_portfolio_value l in
    if nav == 0
    then risk_data_unavailable_result s exposure
    else result
        (not (
          ltb (nav * get_limit max_total_exposure_pct (some s.market) l)
            ((current + signal_notional s) * 10000)))
        exposure

unfoldable pub validate_exposure :
    List (Option (List PositionItem)) → RiskLimits → Signal → RiskValidationResult
validate_exposure pages l s = elim (get_total_exposure pages) [
  | some current ↦ judge_exposure current l s
  | none ↦ risk_data_unavailable_result s exposure
]
