-- ===== src/Risk/Validators/Context.antt =====
-- services/shared/models/risk_context.py and the validators that read it alone: liquidity_validator.py,
-- spread_gate_validator.py and sector_validator.py. Shares of a volume are in hundredths of a percent.
use quant_embrace_v.Common.{
  ℕ, ◌+◌, ◌*◌, true, not, ℤ, Option, none, some, List, ltb, leb, ◌==◌, if◌then◌else◌,
}
use quant_embrace_v.Risk.Limits.{RiskLimits, get_limit, max_sector_exposure_pct}
use quant_embrace_v.Risk.Signals.{
  Signal, RiskValidationResult, result, liquidity, spread_gate, sector,
  risk_data_unavailable_result, signal_notional,
}

-- The reads whose failure is recorded.
pub data DataError : Type 0 where
  position_state pending_quantity adv live_spread portfolio_nav analytics_snapshot total_exposure :
      DataError

pub record PositionState : Type 0 where
  pub confirmed_quantity : ℤ
  pub pending_qty : ℕ
  pub avg_entry_price : ℕ

-- `sector_exposures` is the `get` of the dictionary, which gives 0 for a sector that is not there.
pub record RiskContext : Type 0 where
  pub signal : Signal
  pub held : PositionState
  pub current_exposure : ℕ
  pub nav : ℕ
  pub sector_exposures : ℕ → ℕ
  pub live_spread_bps : Option ℕ
  pub adv_20d : Option ℕ
  pub risk_data_errors : List DataError

unfoldable pub proposed_sector_exposure : RiskContext → ℕ → ℕ
proposed_sector_exposure c name = c.sector_exposures name + signal_notional c.signal

-- A threshold with overrides by symbol.
pub record Thresholds : Type 0 where
  pub general : ℕ
  pub overrides : ℕ → Option ℕ

unfoldable pub threshold : ℕ → Thresholds → ℕ
threshold symbol t = elim (t.overrides symbol) [ some o ↦ o | none ↦ t.general ]

abbrev pub liquid_adv_floor : ℕ
liquid_adv_floor = 1000000

abbrev pub judge_volume : ℕ → RiskContext → Thresholds → RiskValidationResult
judge_volume volume c t =
    if volume == 0
    then risk_data_unavailable_result c.signal liquidity
    else if leb liquid_adv_floor volume
    then result true liquidity
    else result (not (ltb (threshold c.signal.symbol t * volume) (c.signal.quantity * 10000)))
        liquidity

unfoldable pub validate_liquidity : RiskContext → Thresholds → RiskValidationResult
validate_liquidity c t = elim c.adv_20d [
  | some volume ↦ judge_volume volume c t
  | none ↦ risk_data_unavailable_result c.signal liquidity
]

unfoldable pub validate_spread : RiskContext → Thresholds → RiskValidationResult
validate_spread c t = elim c.live_spread_bps [
  | some spread ↦ result (not (ltb (threshold c.signal.symbol t) spread)) spread_gate
  | none ↦ risk_data_unavailable_result c.signal spread_gate
]

-- The sector of an instrument, or none for "UNKNOWN": no registry, no entry, or a lookup that raises.
unfoldable pub get_sector : Option (ℕ → Option ℕ) → ℕ → Option ℕ
get_sector none symbol = none
get_sector (some registry) symbol = registry symbol

abbrev pub judge_sector : ℕ → RiskContext → RiskLimits → RiskValidationResult
judge_sector name c l =
    if c.nav == 0
    then risk_data_unavailable_result c.signal sector
    else result
        (not (
          ltb (get_limit max_sector_exposure_pct none l * c.nav)
            (proposed_sector_exposure c name * 10000)))
        sector

unfoldable pub validate_sector :
    RiskContext → Option (ℕ → Option ℕ) → RiskLimits → RiskValidationResult
validate_sector c registry l = elim (get_sector registry c.signal.symbol) [
  | some name ↦ judge_sector name c l
  | none ↦ risk_data_unavailable_result c.signal sector
]
