-- ===== src/Risk/Validators/Slippage.antt =====
-- services/risk_engine/validators/slippage_validator.py. Costs are in hundredths of a percent, and the
-- comparisons are multiplied out: `mid` is half of `bid + ask`, both of them positive.
use quant_embrace_v.Common.{
  ℕ, ◌+◌, ◌*◌, Bool, true, Option, none, some, ◌&&◌, ◌||◌, ltb, ◌==◌, if◌then◌else◌,
}
use quant_embrace_v.Risk.Signals.{
  Signal, RiskValidationResult, result, slippage, risk_data_unavailable_result, is_paper_signal,
}

pub record SlippageValidator : Type 0 where
  pub max_spread_pct : ℕ
  pub max_adv_pct : ℕ
  pub max_total_cost_pct : ℕ
  pub warn_only : Bool

abbrev pub or_zero : Option ℕ → ℕ
or_zero none = 0
or_zero (some n) = n

-- The read of the average daily volume: none if it raises, `some none` if there is no value.
unfoldable pub get_adv : Option (Option ℕ) → Option ℕ
get_adv none = none
get_adv (some adv) = some (or_zero adv)

-- The half-spread, as a percentage of the mid price, against a limit.
abbrev pub spread_above : ℕ → ℕ → ℕ → Bool
spread_above limit bid ask = ltb (limit * (bid + ask) + bid * 10000) (ask * 10000)

abbrev pub volume_above : ℕ → ℕ → ℕ → Bool
volume_above limit quantity adv = ltb (limit * adv) (quantity * 10000)

-- Half-spread and a tenth of the share of the daily volume, against a limit.
abbrev pub cost_above : ℕ → ℕ → ℕ → ℕ → ℕ → Bool
cost_above limit quantity adv bid ask =
    ltb (limit * (bid + ask) * adv + bid * 10000 * adv)
      (ask * 10000 * adv + quantity * 1000 * (bid + ask))

-- `_result` of a check that failed.
unfoldable pub slippage_rejection : Signal → SlippageValidator → RiskValidationResult
slippage_rejection s v = result (v.warn_only && is_paper_signal s) slippage

abbrev pub judge_cost : ℕ → Signal → SlippageValidator → RiskValidationResult
judge_cost adv s v =
    let bid = or_zero s.bid in
    let ask = or_zero s.ask in
    if adv == 0
    then risk_data_unavailable_result s slippage
    else if spread_above v.max_spread_pct bid ask
    then slippage_rejection s v
    else if volume_above v.max_adv_pct s.quantity adv
    then slippage_rejection s v
    else if cost_above v.max_total_cost_pct s.quantity adv bid ask
    then slippage_rejection s v
    else result true slippage

unfoldable pub validate_slippage :
    Option (Option ℕ) → Signal → SlippageValidator → RiskValidationResult
validate_slippage read s v =
    if or_zero s.bid == 0 || or_zero s.ask == 0
    then risk_data_unavailable_result s slippage
    else elim (get_adv read) [
      | some adv ↦ judge_cost adv s v
      | none ↦ risk_data_unavailable_result s slippage
    ]
