-- ===== src/Execution/Retry/Attempts.antt =====
-- The retry loop of retry_handler.py: how many calls it makes, how long it waits, how it ends.
use quant_embrace_v.Common.{
  false, true, Bool, ℕ, zero, suc, ◌+◌, ◌-◌, ◌*◌, ◌^◌, min, ◌≤◌, ◌<◌, ◌≡◌, refl, ◌≢◌, ◌⊎◌, ◌↔◌,
  List, [], ◌∷◌, arith, length,
}
use quant_embrace_v.Execution.Retry.{
  RetryHandler, closed, Checked, pass, blocked, check_circuit, record_success, record_failure,
  delay_after, attempts, execute, Run, Reply, returns, permanent, fails, Ended, returned,
  circuit_open, raised_permanent, raised_last, unreachable,
}

-- The settings, which no method changes.
abbrev pub SameSettings : RetryHandler → RetryHandler → Type 0
SameSettings h h' =
    (h'.max_retries ≡ h.max_retries)
    × (h'.base_delay ≡ h.base_delay)
    × (h'.max_delay ≡ h.max_delay)
    × (h'.backoff_factor ≡ h.backoff_factor)

after_failure-SameSettings :
    (now later : ℕ) (h : RetryHandler)
    → SameSettings h (check_circuit later (record_failure now h)).0
unfolding check_circuit record_failure
after_failure-SameSettings now later h = ground arith

-- The pause after one attempt: exponential, and capped.
unfoldable pub pause : ℕ → RetryHandler → ℕ
pause attempt h = min (h.base_delay * h.backoff_factor ^ (attempt - 1)) h.max_delay

-- The pauses that the settings prescribe from attempt number `attempt` on.
abbrev pub backoff : ℕ → ℕ → RetryHandler → List ℕ
backoff zero attempt h = []
backoff (suc n) attempt h = pause attempt h ∷ backoff n (attempt + 1) h

-- The calls that no pause follows: the last one, but where the circuit is found open after a pause.
abbrev pub last_calls : Ended → ℕ
last_calls (returned v) = 1
last_calls (circuit_open remaining) = 0
last_calls raised_permanent = 1
last_calls raised_last = 1
last_calls unreachable = 1

-- What a run of the loop guarantees, with `left` rounds to go.
record IsBounded (left attempt : ℕ) (h : RetryHandler) (r : Run) : Type 0 where
  some_calls : 0 < r.calls
  few_calls : r.calls ≤ left
  pauses : r.slept ≡ backoff (length r.slept) attempt h
  paused : r.calls ≡ length r.slept + last_calls r.ended
  ends : r.ended ≢ unreachable
  exhausted : r.ended ≡ raised_last → r.calls ≡ left

delay_after-SameSettings :
    (attempt : ℕ) (h h' : RetryHandler)
    → SameSettings h h'
    → delay_after attempt h' ≡ pause attempt h
unfolding delay_after pause
delay_after-SameSettings attempt h h' (_, base, most, factor) = rw (base, most, factor) refl

pause-SameSettings :
    (attempt : ℕ) (h h' : RetryHandler) → SameSettings h h' → pause attempt h' ≡ pause attempt h
unfolding pause
pause-SameSettings attempt h h' (_, base, most, factor) = rw (base, most, factor) refl

backoff-SameSettings :
    (n attempt : ℕ) (h h' : RetryHandler)
    → SameSettings h h'
    → backoff n attempt h' ≡ backoff n attempt h
backoff-SameSettings zero attempt h h' same = refl
backoff-SameSettings (suc n) attempt h h' same =
    ground
      (arith, backoff-SameSettings n (attempt + 1) h h' same, pause-SameSettings attempt h h' same)

record_failure-max_retries :
    (now : ℕ) (h : RetryHandler) → (record_failure now h).max_retries ≡ h.max_retries
unfolding record_failure
record_failure-max_retries now h = ground arith

record_failure-SameSettings : (now : ℕ) (h : RetryHandler) → SameSettings h (record_failure now h)
unfolding record_failure
record_failure-SameSettings now h = ground arith

attempts-IsBounded :
    (left attempt : ℕ) (replies : List (ℕ × Reply)) (h : RetryHandler)
    → attempt + left ≡ h.max_retries
    → suc left ≤ length replies
    → IsBounded (suc left) attempt h (attempts (suc left) attempt replies h)
unfolding attempts
attempts-IsBounded left attempt [] h round enough = absurd (omega arith)
attempts-IsBounded left attempt ((now, returns v) ∷ replies) h round enough = ground arith
attempts-IsBounded left attempt ((now, permanent) ∷ replies) h round enough = ground arith
attempts-IsBounded zero attempt ((now, fails) ∷ replies) h round enough =
    ground (arith, record_failure-max_retries now h)
attempts-IsBounded (suc left) attempt ((now, fails) ∷ replies) h round enough =
    let failed = record_failure now h in
    let delay = delay_after attempt failed in
    let next = (check_circuit (now + delay) failed).0 in
    let same = after_failure-SameSettings now (now + delay) h in
    let run = attempts (suc left) (attempt + 1) replies next in
    ground (
      arith,
      record_failure-max_retries now h,
      delay_after-SameSettings attempt h failed (record_failure-SameSettings now h),
      same,
      attempts-IsBounded left (attempt + 1) replies next (omega arith) (omega arith),
      backoff-SameSettings (length run.slept) (attempt + 1) h next same,
    )

attempts_positive :
    (n attempt : ℕ) (replies : List (ℕ × Reply)) (h : RetryHandler)
    → 0 < n
    → attempt + n ≡ h.max_retries + 1
    → n ≤ length replies
    → IsBounded n attempt h (attempts n attempt replies h)
attempts_positive zero attempt replies h positive round enough = absurd (omega arith)
attempts_positive (suc n) attempt replies h positive round enough =
    attempts-IsBounded n attempt replies h (omega arith) enough

abbrev pub is_blocked : Checked → Bool
is_blocked pass = false
is_blocked (blocked _) = true

check_circuit-SameSettings : (now : ℕ) (h : RetryHandler) → SameSettings h (check_circuit now h).0
unfolding check_circuit
check_circuit-SameSettings now h = ground arith

-- A handler with at least one retry that is given a reply for each round: `execute` ends by a
-- value or by an exception that the code names, never by its last line. It makes no call exactly
-- when the circuit was open, at most `max_retries` calls, and all of them if it gives up on the
-- last failure. After each call but the last there is a pause, and after the last one only if the
-- circuit is open then; the pause after call number n is the base delay times the factor to the power
-- n - 1, or the maximum where that is less.
pub execute_bounds :
    (now : ℕ) (replies : List (ℕ × Reply)) (h : RetryHandler)
    → 0 < h.max_retries
    → h.max_retries ≤ length replies
    → let r = execute now replies h in
      (r.ended ≢ unreachable)
      × (r.calls ≤ h.max_retries)
      × ((r.calls ≡ 0) ↔ (is_blocked (check_circuit now h).1 ≡ true))
      × (r.calls ≡ length r.slept + last_calls r.ended)
      × (r.slept ≡ backoff (length r.slept) 1 h)
      × ((r.ended ≢ raised_last) ⊎ (r.calls ≡ h.max_retries))
unfolding execute
execute_bounds now replies h positive enough =
    let checked = (check_circuit now h).0 in
    let same = check_circuit-SameSettings now h in
    let run = attempts checked.max_retries 1 replies checked in
    ground (
      arith,
      same,
      attempts_positive checked.max_retries 1 replies checked (omega arith) (omega arith)
          (omega arith),
      backoff-SameSettings (length run.slept) 1 h checked same,
    )

-- How many failures the handler has counted, by how a run of the loop ended.
abbrev pub counted : Ended → ℕ → ℕ → ℕ
counted (returned v) before calls = 0
counted (circuit_open remaining) before calls = before + calls
counted raised_permanent before calls = before + (calls - 1)
counted raised_last before calls = before + calls
counted unreachable before calls = before + calls

abbrev pub is_returned : Ended → Bool
is_returned (returned v) = true
is_returned _ = false

-- What the run leaves in the handler.
abbrev pub Leaves : RetryHandler → Run → Type 0
Leaves h r =
    (r.handler.consecutive_failures ≡ counted r.ended h.consecutive_failures r.calls)
    × ((is_returned r.ended ≡ false) ⊎ (r.handler.state ≡ closed))
    × ((r.ended ≢ raised_permanent) ⊎ (0 < r.calls))

failed_counts :
    (now later : ℕ) (h : RetryHandler)
    → ((record_failure now h).consecutive_failures ≡ h.consecutive_failures + 1)
      × ((check_circuit later (record_failure now h)).0.consecutive_failures
          ≡ h.consecutive_failures + 1)
unfolding record_failure check_circuit
failed_counts now later h = ground arith

counted-suc :
    (e : Ended) (before calls : ℕ)
    → (e ≢ raised_permanent) ⊎ (0 < calls)
    → counted e (before + 1) calls ≡ counted e before (calls + 1)
counted-suc (returned v) before calls h = refl
counted-suc (circuit_open _) before calls h = omega arith
counted-suc raised_permanent before calls h = ground arith
counted-suc raised_last before calls h = omega arith
counted-suc unreachable before calls h = omega arith

attempts-Leaves :
    (left attempt : ℕ) (replies : List (ℕ × Reply)) (h : RetryHandler)
    → Leaves h (attempts left attempt replies h)
unfolding attempts
attempts-Leaves zero attempt replies h = ground arith
attempts-Leaves (suc left) attempt [] h = ground arith
attempts-Leaves (suc left) attempt ((now, returns v) ∷ replies) h =
    unfold record_success in ground arith
attempts-Leaves (suc left) attempt ((now, permanent) ∷ replies) h = ground arith
attempts-Leaves (suc left) attempt ((now, fails) ∷ replies) h =
    let failed = record_failure now h in
    let later = now + delay_after attempt failed in
    let next = (check_circuit later failed).0 in
    let run = attempts left (attempt + 1) replies next in
    ground (
      arith,
      failed_counts now later h,
      attempts-Leaves left (attempt + 1) replies next,
      counted-suc run.ended h.consecutive_failures run.calls,
    )

-- A success closes the circuit and clears the count; a permanent error adds nothing for its own
-- call; every other failed call adds one. So the count after a run is the count before plus the
-- failed calls, or 0 after a success.
pub execute_counts :
    (now : ℕ) (replies : List (ℕ × Reply)) (h : RetryHandler)
    → let r = execute now replies h in
      (r.handler.consecutive_failures ≡ counted r.ended h.consecutive_failures r.calls)
      × ((is_returned r.ended ≡ false) ⊎ (r.handler.state ≡ closed))
unfolding execute
execute_counts now replies h =
    let checked = (check_circuit now h).0 in
    ground (arith, same_count, attempts-Leaves checked.max_retries 1 replies checked)
  where
    same_count : (check_circuit now h).0.consecutive_failures ≡ h.consecutive_failures
    same_count = unfold check_circuit in ground arith
