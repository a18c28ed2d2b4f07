-- ===== src/Risk/Validators/Margin.antt =====
-- services/risk_engine/validators/margin_validator.py. The buffer is in percent; the market of a signal
-- is one of two, so that its upper case is itself.
use quant_embrace_v.Common.{ℕ, ◌+◌, ◌*◌, Bool, false, not, Option, none, some, ltb, if◌then◌else◌}
use quant_embrace_v.Risk.Limits.{Market, nse, us}
use quant_embrace_v.Risk.Signals.{
  Signal, RiskValidationResult, result, margin, risk_data_unavailable_result, signal_notional,
}

pub record MarginItem : Type 0 where
  pub cash_attribute : Option ℕ
  pub margin_attribute : Option ℕ
  pub collateral_attribute : Option ℕ

pub record Snapshot : Type 0 where
  pub available_cash : ℕ
  pub used_margin : ℕ
  pub collateral_value : ℕ
  pub fetched_at : ℕ

-- `_cache`, by market.
pub record MarginValidator : Type 0 where
  pub buffer_pct : ℕ
  pub nse_cache : Option Snapshot
  pub us_cache : Option Snapshot

unfoldable pub new_margin : ℕ → MarginValidator
new_margin buffer = record { buffer_pct = buffer; nse_cache = none; us_cache = none }

abbrev pub cached : Market → MarginValidator → Option Snapshot
cached nse v = v.nse_cache
cached us v = v.us_cache

abbrev store : Market → Snapshot → MarginValidator → MarginValidator
store nse x v = record v { nse_cache = some x }
store us x v = record v { us_cache = some x }

abbrev pub margin_ttl : ℕ
margin_ttl = 5000

abbrev or_zero : Option ℕ → ℕ
or_zero none = 0
or_zero (some n) = n

-- What the read gives: none if it raises, `some none` if there is no item.
unfoldable pub fetch_margin : ℕ → Option (Option MarginItem) → Option (Option Snapshot)
fetch_margin now none = none
fetch_margin now (some none) = some none
fetch_margin now (some (some i)) = some (
    some (record {
      available_cash = or_zero i.cash_attribute;
      used_margin = or_zero i.margin_attribute;
      collateral_value = or_zero i.collateral_attribute;
      fetched_at = now;
    }))

abbrev is_fresh : ℕ → Option Snapshot → Bool
is_fresh now none = false
is_fresh now (some x) = ltb now (x.fetched_at + margin_ttl)

abbrev from_read :
    Market → Option (Option Snapshot) → MarginValidator → MarginValidator × Option (Option Snapshot)
from_read m none v = (v, none)
from_read m (some none) v = (v, some none)
from_read m (some (some x)) v = (store m x v, some (some x))

unfoldable pub get_margin_snapshot :
    ℕ
    → Market
    → Option (Option MarginItem)
    → MarginValidator
    → MarginValidator × Option (Option Snapshot)
get_margin_snapshot now m read v =
    if is_fresh now (cached m v)
    then (v, some (cached m v))
    else from_read m (fetch_margin now read) v

-- `available < order_value * (1 + buffer)`, in hundredths.
abbrev pub is_short : ℕ → Snapshot → Signal → Bool
is_short buffer x s =
    ltb ((x.available_cash + x.collateral_value) * 100) (signal_notional s * (100 + buffer))

abbrev judge : ℕ → Option (Option Snapshot) → Signal → RiskValidationResult
judge buffer (some (some x)) s = result (not (is_short buffer x s)) margin
judge buffer (some none) s = risk_data_unavailable_result s margin
judge buffer none s = risk_data_unavailable_result s margin

unfoldable pub validate_margin :
    ℕ
    → Option (Option MarginItem)
    → Signal
    → MarginValidator
    → MarginValidator × RiskValidationResult
validate_margin now read s v =
    let (v', snapshot) = get_margin_snapshot now s.market read v in
    (v', judge v.buffer_pct snapshot s)
