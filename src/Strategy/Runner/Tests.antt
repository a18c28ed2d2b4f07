-- ===== src/Strategy/Runner/Tests.antt =====
-- strategy_runner.py on a runner with a cap of two signals a day.
use quant_embrace_v.Common.{◌+◌, ◌≤◌, ◌≡◌, refl, true, none, some, List, [], ◌∷◌, arith}
use quant_embrace_v.Strategy.CircuitBreaker
use quant_embrace_v.Strategy.CircuitBreaker.{CircuitBreaker, open_, is_open, record_failure}
use quant_embrace_v.Strategy.Runner.{
  Runner, StrategyConfig, tick, raises, returns, normal, new, dispatch_tick, dispatch_bar,
  should_dispatch, guarded_call, apply_paper_flag, check_cap,
}
use quant_embrace_v.Strategy.Runner.Cap.{Event, on_tick, on_bar, emitted, dispatch, cap_bounds_day}

abbrev settings : StrategyConfig
settings = record {
  enabled = true;
  paper_trade = true;
  max_signals_per_day = 2;
  threshold_consecutive = 5;
  threshold_rate = 10;
}

abbrev runner : Runner
runner = record {
  interface = tick;
  config = settings;
  circuit = CircuitBreaker.new;
  signals_today = 0;
  cap_date = 7;
  total_signals = 0;
  total_paper_signals = 0;
}

runner_is_new : new tick settings 7 ≡ runner
unfolding new CircuitBreaker.new
runner_is_new = refl

abbrev day : List Event
day =
    on_tick 1 7 (returns (some 101))
    ∷ on_tick 2 7 raises
    ∷ on_tick 3 7 (returns none)
    ∷ on_tick 4 7 (returns (some 102))
    ∷ on_tick 5 7 (returns (some 103))
    ∷ on_bar 6 7 normal (returns (some 104))
    ∷ []

two_come_out : emitted day runner ≡ 2
unfolding emitted dispatch dispatch_tick dispatch_bar CircuitBreaker.new should_dispatch is_open
    guarded_call apply_paper_flag check_cap CircuitBreaker.record_success
    CircuitBreaker.record_failure CircuitBreaker.evict
two_come_out = refl

cap_bounds_day_example : 0 + emitted day runner ≤ 2
cap_bounds_day_example = cap_bounds_day day runner (omega arith) (omega arith) (omega arith)

stamped : (dispatch_tick 1 7 (returns (some 101)) runner).1 ≡ some (101, true)
unfolding dispatch_tick dispatch_bar CircuitBreaker.new should_dispatch is_open guarded_call
    apply_paper_flag check_cap CircuitBreaker.record_success CircuitBreaker.record_failure
    CircuitBreaker.evict
stamped = refl

abbrev after : Runner
after = (dispatch_tick 1 7 (returns (some 101)) runner).0

abbrev halted : Runner
halted = record runner { circuit = record CircuitBreaker.new { state_ = open_; open_at = some 50 } }
