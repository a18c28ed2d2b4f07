-- ===== src/Risk/Validators/Reconciliation.antt =====
-- services/risk_engine/validators/reconciliation_validator.py. The item of the flag is known by its
-- attribute `required`; the metric of a failed read is left out.
use quant_embrace_v.Common.{ℕ, ◌+◌, Bool, true, false, not, Option, none, some, ltb, if◌then◌else◌}
use quant_embrace_v.Risk.Signals.{Signal, RiskValidationResult, result, reconciliation}

pub record ReconciliationValidator : Type 0 where
  pub required : Bool
  pub last_refresh : ℕ
  pub consecutive_read_failures : ℕ

unfoldable pub new_reconciliation : ReconciliationValidator
new_reconciliation = record { required = false; last_refresh = 0; consecutive_read_failures = 0 }

-- One second.
abbrev pub reconciliation_ttl : ℕ
reconciliation_ttl = 1000

abbrev or_false : Option Bool → Bool
or_false none = false
or_false (some b) = b

-- A failed read opens: the flag is taken as not set, for as long as a successful one would stand.
unfoldable pub refresh_reconciliation :
    ℕ → Option (Option Bool) → ReconciliationValidator → ReconciliationValidator
refresh_reconciliation now read v =
    if ltb now (v.last_refresh + reconciliation_ttl) then v else elim read [
      | some flag ↦ record {
        required = or_false flag;
        last_refresh = now;
        consecutive_read_failures = 0;
      }
      | none ↦ record {
        required = false;
        last_refresh = now;
        consecutive_read_failures = v.consecutive_read_failures + 1;
      }
    ]

unfoldable pub validate_reconciliation :
    ℕ
    → Option (Option Bool)
    → Signal
    → ReconciliationValidator
    → ReconciliationValidator × RiskValidationResult
validate_reconciliation now read s v =
    let v' = refresh_reconciliation now read v in
    if s.paper_trade
    then (v, result true reconciliation)
    else if s.is_closeout
    then (v, result true reconciliation)
    else (v', result (not v'.required) reconciliation)
