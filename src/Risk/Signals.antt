-- ===== src/Risk/Signals.antt =====
-- services/shared/models/signal.py, and what the validators share: RiskValidationResult of
-- risk_limits.py and validators/common.py. Texts and details of a result are left out.
use quant_embrace_v.Common.{ℕ, ◌*◌, Bool, Option}
use quant_embrace_v.Risk.Limits.{Market}

pub data Direction : Type 0 where
  buy sell : Direction

-- Times in milliseconds. `bid` and `ask` are attributes that a signal may carry besides its fields,
-- `is_closeout` is the entry of its metadata.
pub record Signal : Type 0 where
  pub signal_id : ℕ
  pub symbol : ℕ
  pub market : Market
  pub direction : Direction
  pub quantity : ℕ
  pub price_at_signal : ℕ
  pub generated_at : ℕ
  pub paper_trade : Bool
  pub is_closeout : Bool
  pub bid : Option ℕ
  pub ask : Option ℕ

-- The names under which results are logged.
pub data Validator : Type 0 where
  signal_age entry_block reconciliation risk_context position exposure liquidity spread_gate sector
        margin slippage daily_loss signal_expiry :
      Validator

pub record RiskValidationResult : Type 0 where
  pub approved : Bool
  pub validator_name : Validator

abbrev pub result : Bool → Validator → RiskValidationResult
result ok name = record { approved = ok; validator_name = name }

unfoldable pub is_paper_signal : Signal → Bool
is_paper_signal s = s.paper_trade

unfoldable pub risk_data_unavailable_result : Signal → Validator → RiskValidationResult
risk_data_unavailable_result s name = result (is_paper_signal s) name

-- `quantity * price_at_signal`; `abs` changes nothing on what is not negative.
unfoldable pub signal_notional : Signal → ℕ
signal_notional s = s.quantity * s.price_at_signal
