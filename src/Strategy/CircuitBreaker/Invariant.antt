-- ===== src/Strategy/CircuitBreaker/Invariant.antt =====
-- What holds of a breaker of circuit_breaker.py between two calls of its methods.
use quant_embrace_v.Common.{ℕ, ◌<◌, ◌≡◌, ◌≢◌, true, Option, none, List, [], ◌∷◌, arith, is_some}
use quant_embrace_v.Strategy.CircuitBreaker.{
  CircuitBreaker, closed, open_, half_open, new, state, errors_in_window, record_success,
  record_failure, reset, update_thresholds,
}

-- A call of one of the public methods, with the reading of the clock.
pub data Call : Type 0 where
  read success failure count : ℕ → Call
  manual_reset : Call
  thresholds : Option ℕ → Option ℕ → Call

unfoldable pub perform : Call → CircuitBreaker → CircuitBreaker
perform (read now) c = (state now c).0
perform (success now) c = record_success now c
perform (failure now) c = (record_failure now c).0
perform (count now) c = (errors_in_window now c).0
perform manual_reset c = reset c
perform (thresholds consecutive rate) c = update_thresholds consecutive rate c

unfoldable pub perform_all : List Call → CircuitBreaker → CircuitBreaker
perform_all [] c = c
perform_all (k ∷ ks) c = perform_all ks (perform k c)

pub record IsValid (c : CircuitBreaker) : Type 0 where
  pub closed_clear : c.state_ ≡ closed → (c.open_at ≡ none) × (c.half_open_successes ≡ 0)
  pub stamped : c.state_ ≢ closed → is_some c.open_at ≡ true
  pub open_fresh : c.state_ ≡ open_ → c.half_open_successes ≡ 0
  pub half_below : c.state_ ≡ half_open → c.half_open_successes < c.success_threshold
  pub wants_success : 0 < c.success_threshold

pub new-IsValid : IsValid new
unfolding new
new-IsValid = ground arith

pub perform-IsValid : (k : Call) (c : CircuitBreaker) → IsValid c → IsValid (perform k c)
unfolding perform state record_success record_failure errors_in_window reset update_thresholds
perform-IsValid (read now) c v = ground arith
perform-IsValid (success now) c v = ground arith
perform-IsValid (failure now) c v = ground arith
perform-IsValid (count now) c v = ground arith
perform-IsValid manual_reset c v = ground arith
perform-IsValid (thresholds consecutive rate) c v = ground arith

-- Whatever methods are called, in whatever order, a breaker that is closed has no opening time
-- and no successes counted, one that is not closed has an opening time, an open one has counted
-- no successes, and a half-open one has counted fewer than it wants.
pub perform_all-IsValid :
    (ks : List Call) (c : CircuitBreaker) → IsValid c → IsValid (perform_all ks c)
unfolding perform_all
perform_all-IsValid [] c v = v
perform_all-IsValid (k ∷ ks) c v = perform_all-IsValid ks (perform k c) (perform-IsValid k c v)
