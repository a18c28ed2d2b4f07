-- ===== src/Strategy/Runner/Gates.antt =====
-- What strategy_runner.py keeps a strategy from: while its breaker is open, while it is disabled.
use quant_embrace_v.Common.{ℕ, ◌+◌, ◌<◌, ◌≡◌, ◌⊎◌, none, some, arith}
use quant_embrace_v.Strategy.CircuitBreaker.{open_, is_open, record_failure}
use quant_embrace_v.Strategy.Runner.{
  Runner, Outcome, raises, DataQuality, should_dispatch, guarded_call, dispatch_tick, dispatch_bar,
}

-- While the breaker is open and its reset time has not passed, no dispatch reaches the strategy:
-- the runner is unchanged and no signal comes out, whatever the strategy would have done.
pub open_isolates :
    (now today since : ℕ) (quality : DataQuality) (outcome : Outcome) (r : Runner)
    → r.circuit.state_ ≡ open_
    → r.circuit.open_at ≡ some since
    → now < since + r.circuit.reset_seconds
    → (dispatch_tick now today outcome r ≡ (r, none))
      × (dispatch_bar now today quality outcome r ≡ (r, none))
unfolding dispatch_tick dispatch_bar should_dispatch is_open
open_isolates now today since quality outcome r e at early = ground arith

-- An exception of the strategy never leaves the dispatch: no signal comes out, the caps and the
-- totals stand, and the breaker has recorded one failure, if the strategy was reached at all.
pub raise_is_contained :
    (now today : ℕ) (r : Runner)
    → let (r', signal) = dispatch_tick now today raises r in
      (signal ≡ none)
      × (r'.signals_today ≡ r.signals_today)
      × (r'.total_signals ≡ r.total_signals)
      × (r'.config ≡ r.config)
      × ((r'.circuit ≡ r.circuit)
          ⊎ (r'.circuit ≡ (is_open now r.circuit).0)
          ⊎ (r'.circuit ≡ (record_failure now (is_open now r.circuit).0).0))
unfolding dispatch_tick should_dispatch guarded_call
raise_is_contained now today r = ground arith
