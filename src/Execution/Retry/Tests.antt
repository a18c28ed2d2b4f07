-- ===== src/Execution/Retry/Tests.antt =====
-- retry_handler.py against a broker that fails twice, and one that is down.
use quant_embrace_v.Common.{
  ℕ, ◌+◌, ◌≤◌, ◌≡◌, ◌≢◌, ◌⊎◌, ◌↔◌, refl, true, List, [], ◌∷◌, arith, length,
}
use quant_embrace_v.Execution.Retry.{
  RetryHandler, closed, open_, Reply, returns, fails, returned, circuit_open, raised_last,
  unreachable, new, check_circuit, record_failure, record_success, delay_after, attempts, execute,
}
use quant_embrace_v.Execution.Retry.Circuit.{IsValid}
use quant_embrace_v.Execution.Retry.Attempts.{backoff, last_calls, is_blocked, execute_bounds}

-- The defaults, in seconds.
abbrev handler : RetryHandler
handler = record {
  max_retries = 3;
  base_delay = 1;
  max_delay = 30;
  backoff_factor = 2;
  failure_threshold = 5;
  cooldown_seconds = 60;
  state = closed;
  consecutive_failures = 0;
  last_failure_time = 0;
}

handler_is_new : new 3 1 30 2 5 60 ≡ handler
unfolding new
handler_is_new = refl

abbrev replies : List (ℕ × Reply)
replies = (10, fails) ∷ (12, fails) ∷ (15, returns 7) ∷ []

third_call_succeeds : execute 9 replies handler ≡ record {
  handler = record handler { last_failure_time = 12 };
  calls = 3;
  slept = 1 ∷ 2 ∷ [];
  ended = returned 7;
}
unfolding execute check_circuit record_failure record_success delay_after attempts
third_call_succeeds = refl

gives_up : (execute 9 ((10, fails) ∷ (12, fails) ∷ (15, fails) ∷ []) handler).ended ≡ raised_last
unfolding execute check_circuit record_failure record_success delay_after attempts
gives_up = refl

abbrev down : RetryHandler
down = record handler { state = open_; consecutive_failures = 5; last_failure_time = 100 }

refused_early : (execute 130 replies down).ended ≡ circuit_open 30
unfolding execute check_circuit attempts
refused_early = refl

execute_bounds_example :
    let r = execute 9 replies handler in
    (r.ended ≢ unreachable)
    × (r.calls ≤ 3)
    × ((r.calls ≡ 0) ↔ (is_blocked (check_circuit 9 handler).1 ≡ true))
    × (r.calls ≡ length r.slept + last_calls r.ended)
    × (r.slept ≡ backoff (length r.slept) 1 handler)
    × ((r.ended ≢ raised_last) ⊎ (r.calls ≡ 3))
execute_bounds_example = execute_bounds 9 replies handler (omega arith) (omega arith)

handler-IsValid : IsValid handler
handler-IsValid = ground arith
