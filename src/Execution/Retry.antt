-- ===== src/Execution/Retry.antt =====
-- services/execution_engine/retry/retry_handler.py: calls of a broker with exponential backoff
-- behind a circuit breaker. The awaited call is an argument: a list with, for each attempt, what
-- the broker does and the time at which it is over. Times are whole ticks, and `backoff_factor` is
-- a whole number (the default is 2). `slept` collects the delays and `calls` counts the calls made.
pub mod Circuit
pub mod Attempts
mod Tests
use quant_embrace_v.Common.{
  ℕ, zero, suc, ◌+◌, ◌-◌, ◌*◌, ◌^◌, min, Bool, true, false, List, [], ◌∷◌, ◌++◌, ltb, leb, ◌==◌,
  if◌then◌else◌,
}

pub data CircuitState : Type 0 where
  closed open_ half_open : CircuitState

-- `retryable_exceptions` is the default, `(Exception,)`.
pub record RetryHandler : Type 0 where
  pub max_retries : ℕ
  pub base_delay : ℕ
  pub max_delay : ℕ
  pub backoff_factor : ℕ
  pub failure_threshold : ℕ
  pub cooldown_seconds : ℕ
  pub state : CircuitState
  pub consecutive_failures : ℕ
  pub last_failure_time : ℕ

unfoldable pub new : ℕ → ℕ → ℕ → ℕ → ℕ → ℕ → RetryHandler
new retries base cap factor threshold cooldown = record {
  max_retries = retries;
  base_delay = base;
  max_delay = cap;
  backoff_factor = factor;
  failure_threshold = threshold;
  cooldown_seconds = cooldown;
  state = closed;
  consecutive_failures = 0;
  last_failure_time = 0;
}

-- What the broker's coroutine does in one attempt.
pub data Reply : Type 0 where
  returns : ℕ → Reply
  permanent : Reply  -- `NonRetryableBrokerError`
  fails : Reply  -- any other `Exception`

-- How `execute` ends. `unreachable` is its last line, `raise last_exception`.
pub data Ended : Type 0 where
  returned : ℕ → Ended
  circuit_open : ℕ → Ended  -- `CircuitBreakerOpen`, with the cooldown that remains
  raised_permanent : Ended
  raised_last : Ended
  unreachable : Ended

-- `_check_circuit`: the handler, and the remaining cooldown where it raises.
pub data Checked : Type 0 where
  pass : Checked
  blocked : ℕ → Checked

check_in : CircuitState → ℕ → RetryHandler → RetryHandler × Checked
check_in closed now h = (h, pass)
check_in half_open now h = (h, pass)
check_in open_ now h =
    if leb (h.last_failure_time + h.cooldown_seconds) now
    then (record h { state = half_open }, pass)
    else (h, blocked (h.last_failure_time + h.cooldown_seconds - now))

unfoldable pub check_circuit : ℕ → RetryHandler → RetryHandler × Checked
unfolding check_in
check_circuit now h = check_in h.state now h

unfoldable pub record_success : RetryHandler → RetryHandler
record_success h = record h { state = closed; consecutive_failures = 0 }

failure_in : CircuitState → RetryHandler → RetryHandler
failure_in half_open h = record h { state = open_ }
failure_in closed h =
    if leb h.failure_threshold h.consecutive_failures then record h { state = open_ } else h
failure_in open_ h =
    if leb h.failure_threshold h.consecutive_failures then record h { state = open_ } else h

unfoldable pub record_failure : ℕ → RetryHandler → RetryHandler
unfolding failure_in
record_failure now h =
    failure_in h.state
      (record h { consecutive_failures = h.consecutive_failures + 1; last_failure_time = now })

unfoldable pub reset : RetryHandler → RetryHandler
reset h = record h { state = closed; consecutive_failures = 0; last_failure_time = 0 }

-- The pause after attempt number `attempt`, counted from 1.
unfoldable pub delay_after : ℕ → RetryHandler → ℕ
delay_after attempt h = min (h.base_delay * h.backoff_factor ^ (attempt - 1)) h.max_delay

pub record Run : Type 0 where
  pub handler : RetryHandler
  pub calls : ℕ
  pub slept : List ℕ
  pub ended : Ended

-- The loop over the attempts: `left` rounds to go, `attempt` the number of this one. A reply comes
-- with the time at which it comes in; after the pause the circuit is checked again. A broker that
-- has no reply left in the list answers none of the calls that the loop still makes, and the
-- theorems give one for each round.
unfoldable pub attempts : ℕ → ℕ → List (ℕ × Reply) → RetryHandler → Run
attempts zero attempt replies h = record { handler = h; calls = 0; slept = []; ended = unreachable }
attempts (suc left) attempt [] h = record {
  handler = h;
  calls = 0;
  slept = [];
  ended = unreachable;
}
attempts (suc left) attempt ((now, returns v) ∷ replies) h = record {
  handler = record_success h;
  calls = 1;
  slept = [];
  ended = returned v;
}
attempts (suc left) attempt ((now, permanent) ∷ replies) h = record {
  handler = h;
  calls = 1;
  slept = [];
  ended = raised_permanent;
}
attempts (suc left) attempt ((now, fails) ∷ replies) h =
    let h' = record_failure now h in
    let delay = delay_after attempt h' in
    let (h'', checked) = check_circuit (now + delay) h' in
    let rest = attempts left (attempt + 1) replies h'' in
    if attempt == h'.max_retries
    then record { handler = h'; calls = 1; slept = []; ended = raised_last }
    else elim checked [
      | pass ↦ record {
        handler = rest.handler;
        calls = rest.calls + 1;
        slept = delay ∷ rest.slept;
        ended = rest.ended;
      }
      | blocked remaining ↦ record {
        handler = h'';
        calls = 1;
        slept = delay ∷ [];
        ended = circuit_open remaining;
      }
    ]

unfoldable pub execute : ℕ → List (ℕ × Reply) → RetryHandler → Run
execute now replies h =
    let (h', checked) = check_circuit now h in
    let run = attempts h'.max_retries 1 replies h' in
    elim checked [
      | pass ↦ run
      | blocked remaining ↦ record {
        handler = h';
        calls = 0;
        slept = [];
        ended = circuit_open remaining;
      }
    ]
