-- ===== src/Strategy/CircuitBreaker.antt =====
-- services/strategy_engine/runners/circuit_breaker.py: the breaker of one strategy. A method
-- takes the reading of the monotonic clock, in whole ticks, and returns the new breaker; all the
-- readings that one method makes are one instant.
pub mod Window
pub mod Invariant
pub mod Recovery
mod Tests
use quant_embrace_v.Common.{
  ℕ, ◌+◌, Bool, true, false, Option, none, some, List, [], ◌∷◌, ◌++◌, ◌||◌, ltb, leb, if◌then◌else◌,
  length,
}

pub data CircuitState : Type 0 where
  closed open_ half_open : CircuitState

pub record CircuitBreaker : Type 0 where
  pub consecutive_threshold : ℕ
  pub rate_threshold : ℕ
  pub rate_window_seconds : ℕ
  pub reset_seconds : ℕ
  pub success_threshold : ℕ
  pub state_ : CircuitState  -- the field `_state`, without the lazy transition
  pub consecutive_errors : ℕ
  pub half_open_successes : ℕ
  pub open_at : Option ℕ
  pub error_times : List ℕ  -- oldest first

-- The settings that `dataclass` takes: thresholds 5 and 10, window and reset 300 s, 3 successes.
unfoldable pub new : CircuitBreaker
new = record {
  consecutive_threshold = 5;
  rate_threshold = 10;
  rate_window_seconds = 300;
  reset_seconds = 300;
  success_threshold = 3;
  state_ = closed;
  consecutive_errors = 0;
  half_open_successes = 0;
  open_at = none;
  error_times = [];
}

-- `while times and times[0] < now - window: popleft()`, the cutoff moved to the other side.
unfoldable pub evict : ℕ → ℕ → List ℕ → List ℕ
evict window now [] = []
evict window now (t ∷ ts) =
    let rest = evict window now ts in if ltb (t + window) now then rest else t ∷ ts

unfoldable pub evict_old_errors : ℕ → CircuitBreaker → CircuitBreaker
evict_old_errors now c = record c { error_times = evict c.rate_window_seconds now c.error_times }

unfoldable pub transition_to_open : ℕ → CircuitBreaker → CircuitBreaker
transition_to_open now c = record c { state_ = open_; open_at = some now; half_open_successes = 0 }

unfoldable pub transition_to_half_open : CircuitBreaker → CircuitBreaker
transition_to_half_open c = record c { state_ = half_open; half_open_successes = 0 }

unfoldable pub transition_to_closed : CircuitBreaker → CircuitBreaker
transition_to_closed c = record c {
  state_ = closed;
  consecutive_errors = 0;
  half_open_successes = 0;
  open_at = none;
  error_times = [];
}

-- `_state == OPEN and _open_at is not None and now - _open_at >= reset_seconds`
abbrev pub reset_due : ℕ → ℕ → CircuitState → Option ℕ → Bool
reset_due now reset open_ (some t) = leb (t + reset) now
reset_due now reset _ _ = false

unfoldable pub check_half_open_transition : ℕ → CircuitBreaker → CircuitBreaker
unfolding transition_to_half_open
check_half_open_transition now c =
    if reset_due now c.reset_seconds c.state_ c.open_at then transition_to_half_open c else c

-- The property `state`, which makes the lazy transition and then reads the field.
unfoldable pub state : ℕ → CircuitBreaker → CircuitBreaker × CircuitState
unfolding check_half_open_transition
state now c = let c' = check_half_open_transition now c in (c', c'.state_)

abbrev pub is_open_state : CircuitState → Bool
is_open_state open_ = true
is_open_state _ = false

unfoldable pub is_open : ℕ → CircuitBreaker → CircuitBreaker × Bool
unfolding state
is_open now c = let (c', st) = state now c in (c', is_open_state st)

unfoldable pub errors_in_window : ℕ → CircuitBreaker → CircuitBreaker × ℕ
unfolding evict_old_errors
errors_in_window now c = let c' = evict_old_errors now c in (c', length c'.error_times)

-- The branches of `record_success`, after the eviction.
success_in : CircuitState → CircuitBreaker → CircuitBreaker
unfolding transition_to_closed
success_in closed c = record c { consecutive_errors = 0 }
success_in half_open c =
    let c' = record c { half_open_successes = c.half_open_successes + 1 } in
    if leb c.success_threshold c'.half_open_successes then transition_to_closed c' else c'
success_in open_ c = c

unfoldable pub record_success : ℕ → CircuitBreaker → CircuitBreaker
unfolding evict_old_errors success_in
record_success now c = success_in c.state_ (evict_old_errors now c)

-- The branches of `record_failure`, after the counting and the eviction.
failure_in : CircuitState → ℕ → CircuitBreaker → CircuitBreaker × Bool
unfolding transition_to_open
failure_in open_ now c = (c, false)
failure_in half_open now c = (transition_to_open now c, true)
failure_in closed now c =
    if leb c.rate_threshold (length c.error_times)
      || leb c.consecutive_threshold c.consecutive_errors
    then (transition_to_open now c, true)
    else (c, false)

unfoldable pub record_failure : ℕ → CircuitBreaker → CircuitBreaker × Bool
unfolding evict_old_errors failure_in
record_failure now c = failure_in c.state_ now (
    evict_old_errors now (record c {
      consecutive_errors = c.consecutive_errors + 1;
      error_times = c.error_times ++ now ∷ [];
    }))

unfoldable pub reset : CircuitBreaker → CircuitBreaker
unfolding transition_to_closed
reset c = transition_to_closed c

abbrev pub or_keep : Option ℕ → ℕ → ℕ
or_keep none old = old
or_keep (some new) old = new

unfoldable pub update_thresholds : Option ℕ → Option ℕ → CircuitBreaker → CircuitBreaker
update_thresholds consecutive rate c = record c {
  consecutive_threshold = or_keep consecutive c.consecutive_threshold;
  rate_threshold = or_keep rate c.rate_threshold;
}
