-- ===== src/Strategy/Runner.antt =====
-- services/strategy_engine/runners/strategy_runner.py: one strategy behind its breaker and its
-- daily cap. What the wrapped strategy does in a dispatch (the two awaited calls, which may raise)
-- is an argument, `Outcome`; `paper_trade` is stamped on the signal as a pair. The readings of the
-- clock that one dispatch makes are one instant, and `today` is its date.
pub mod Gates
pub mod Cap
mod Tests
use quant_embrace_v.Common.{
  ℕ, ◌+◌, Bool, true, false, not, Option, none, some, ◌&&◌, ltb, leb, ◌==◌, if◌then◌else◌,
}
use quant_embrace_v.Strategy.CircuitBreaker
use quant_embrace_v.Strategy.CircuitBreaker.{
  CircuitBreaker, is_open, record_success, record_failure, update_thresholds, reset,
}

pub data InterfaceType : Type 0 where
  tick candle : InterfaceType

-- `DataQuality` of a bar: `NORMAL`, or any of the others.
pub data DataQuality : Type 0 where
  normal suspect : DataQuality

pub record StrategyConfig : Type 0 where
  pub enabled : Bool
  pub paper_trade : Bool
  pub max_signals_per_day : ℕ
  pub threshold_consecutive : ℕ
  pub threshold_rate : ℕ

-- The signal is known by its id; `signal.paper_trade` is the second part.
abbrev pub Signal : Type 0
Signal = ℕ × Bool

-- What the strategy does with a tick or a bar.
pub data Outcome : Type 0 where
  raises : Outcome
  returns : Option ℕ → Outcome

pub record Runner : Type 0 where
  pub interface : InterfaceType
  pub config : StrategyConfig
  pub circuit : CircuitBreaker
  pub signals_today : ℕ
  pub cap_date : ℕ
  pub total_signals : ℕ
  pub total_paper_signals : ℕ

unfoldable pub new : InterfaceType → StrategyConfig → ℕ → Runner
new i cfg today = record {
  interface = i;
  config = cfg;
  circuit = record CircuitBreaker.new {
    consecutive_threshold = cfg.threshold_consecutive;
    rate_threshold = cfg.threshold_rate;
  };
  signals_today = 0;
  cap_date = today;
  total_signals = 0;
  total_paper_signals = 0;
}

unfoldable pub apply_config : StrategyConfig → Bool → Runner → Runner × Bool
apply_config cfg reset_cb r =
    let c =
      update_thresholds (some cfg.threshold_consecutive) (some cfg.threshold_rate) r.circuit in
    if reset_cb
    then (record r { config = cfg; circuit = reset c }, true)
    else (record r { config = cfg; circuit = c }, false)

unfoldable pub reset_daily_cap : ℕ → Runner → Runner
reset_daily_cap today r = record r { signals_today = 0; cap_date = today }

-- The lazy transition is made only if the strategy is enabled.
unfoldable pub should_dispatch : ℕ → Runner → Runner × Bool
should_dispatch now r =
    let (c, open_now) = is_open now r.circuit in
    if r.config.enabled then (record r { circuit = c }, not open_now) else (r, false)

-- `_check_cap` on a signal that is not None.
unfoldable pub check_cap : ℕ → ℕ → Runner → Runner × Option ℕ
unfolding reset_daily_cap
check_cap today signal r =
    let r' = if today == r.cap_date then r else reset_daily_cap today r in
    let cap = r'.config.max_signals_per_day in
    if ltb 0 cap && leb cap r'.signals_today then (r', none) else (
      record r' { signals_today = r'.signals_today + 1; total_signals = r'.total_signals + 1 },
      some signal,
    )

unfoldable pub apply_paper_flag : Option ℕ → Runner → Runner × Option Signal
apply_paper_flag none r = (r, none)
apply_paper_flag (some signal) r =
    if r.config.paper_trade
    then (record r { total_paper_signals = r.total_paper_signals + 1 }, some (signal, true))
    else (r, some (signal, false))

-- The `try` of the two dispatch methods.
unfoldable pub guarded_call : ℕ → ℕ → Outcome → Runner → Runner × Option Signal
guarded_call now today raises r = (record r { circuit = (record_failure now r.circuit).0 }, none)
guarded_call now today (returns none) r =
    (record r { circuit = record_success now r.circuit }, none)
guarded_call now today (returns (some signal)) r =
    let (r', kept) = check_cap today signal (record r { circuit = record_success now r.circuit }) in
    apply_paper_flag kept r'

gated : ℕ → ℕ → Outcome → Runner → Runner × Option Signal
gated now today outcome r =
    let (r', go) = should_dispatch now r in
    if go then guarded_call now today outcome r' else (r', none)

abbrev is_tick : InterfaceType → Bool
is_tick tick = true
is_tick candle = false

abbrev is_normal : DataQuality → Bool
is_normal normal = true
is_normal suspect = false

unfoldable pub dispatch_tick : ℕ → ℕ → Outcome → Runner → Runner × Option Signal
unfolding gated
dispatch_tick now today outcome r =
    if is_tick r.interface then gated now today outcome r else (r, none)

unfoldable pub dispatch_bar : ℕ → ℕ → DataQuality → Outcome → Runner → Runner × Option Signal
unfolding gated
dispatch_bar now today quality outcome r =
    if not (is_tick r.interface) && is_normal quality then gated now today outcome r else (r, none)
