-- ===== src/Risk/Validators/Age.antt =====
-- services/risk_engine/validators/signal_age_validator.py, in milliseconds.
use quant_embrace_v.Common.{ℕ, ◌-◌, min, not, ltb, if◌then◌else◌}
use quant_embrace_v.Risk.Signals.{Signal, RiskValidationResult, result, signal_age}

pub record AgeValidator : Type 0 where
  pub max_age : ℕ

abbrev pub absolute_max_age : ℕ
absolute_max_age = 30000

unfoldable pub new_age : ℕ → AgeValidator
new_age raw_max = record { max_age = min raw_max absolute_max_age }

-- The age is negative where the signal is from the future.
unfoldable pub validate_age : ℕ → Signal → AgeValidator → RiskValidationResult
validate_age now s v =
    if ltb now s.generated_at
    then result (not (ltb 2000 (s.generated_at - now))) signal_age
    else result (not (ltb v.max_age (now - s.generated_at))) signal_age
