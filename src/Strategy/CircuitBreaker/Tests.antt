-- ===== src/Strategy/CircuitBreaker/Tests.antt =====
-- circuit_breaker.py on concrete histories, and its theorems at them.
use quant_embrace_v.Common.{
  ◌+◌, ◌≤◌, ◌≡◌, refl, ◌↔◌, ◌⊎◌, true, false, some, List, [], ◌∷◌, ◌++◌, map, arith, length,
}
use quant_embrace_v.Strategy.CircuitBreaker.{
  CircuitBreaker, closed, open_, half_open, new, state, record_failure, evict, record_success,
}
use quant_embrace_v.Strategy.CircuitBreaker.Window.{recent, record_failure_opens_iff}
use quant_embrace_v.Strategy.CircuitBreaker.Invariant.{
  Call, read, success, failure, count, perform, perform_all, IsValid,
}

-- Four failures and a success leave the breaker closed with four errors in the window.
abbrev shaky : CircuitBreaker
shaky = record new { consecutive_errors = 4; error_times = 10 ∷ 20 ∷ 30 ∷ 40 ∷ [] }

shaky_reached : perform_all (map failure (10 ∷ 20 ∷ 30 ∷ 40 ∷ [])) new ≡ shaky
unfolding perform_all perform new record_failure evict
shaky_reached = refl

abbrev tripped : CircuitBreaker
tripped = record new {
  state_ = open_;
  consecutive_errors = 5;
  open_at = some 50;
  error_times = 10 ∷ 20 ∷ 30 ∷ 40 ∷ 50 ∷ [];
}

trips_on_fifth : record_failure 50 shaky ≡ (tripped, true)
unfolding record_failure new evict
trips_on_fifth = refl

-- Old errors do not count: at 400 only the new one is in the window, and the success has reset the
-- consecutive count.
forgets : (perform_all (success 50 ∷ failure 400 ∷ []) shaky).error_times ≡ 400 ∷ []
unfolding perform_all perform new record_success record_failure evict
forgets = refl

abbrev probing : CircuitBreaker
probing = record tripped { state_ = half_open }

probes_at_350 : (state 349 tripped ≡ (tripped, open_)) × (state 350 tripped ≡ (probing, half_open))
unfolding state new
probes_at_350 = (refl, refl)

abbrev Verdict : Type 0
Verdict =
    let (c', opened) = record_failure 50 shaky in
    let in_window = length (recent shaky.rate_window_seconds 50 (shaky.error_times ++ 50 ∷ [])) in
    ((opened ≡ true) ↔ (
      (shaky.rate_threshold ≤ in_window)
      ⊎ (shaky.consecutive_threshold ≤ shaky.consecutive_errors + 1)))
    × ((opened ≡ true) ↔ (c'.state_ ≡ open_))
    × ((opened ≡ false) ↔ (c'.state_ ≡ closed))

record_failure_opens_iff_example : Verdict
unfolding new
record_failure_opens_iff_example =
    record_failure_opens_iff 50 shaky refl (omega arith) (omega arith)

abbrev waiting : List Call
waiting = read 100 ∷ success 200 ∷ failure 300 ∷ count 340 ∷ read 349 ∷ []

tripped-IsValid : IsValid tripped
unfolding new
tripped-IsValid = ground arith
