-- ===== src/Strategy/CircuitBreaker/Recovery.antt =====
-- Opening and recovery over whole runs of circuit_breaker.py: failures open the breaker, it
-- holds until the reset time, and successes close it again.
use quant_embrace_v.Common.{
  ℕ, ◌+◌, ◌≤◌, ◌<◌, ◌≡◌, ◌⊎◌, inl, inr, true, some, List, [], ◌∷◌, map, arith, length, All,
}
use quant_embrace_v.Strategy.CircuitBreaker.{
  CircuitBreaker, closed, open_, half_open, state, record_success, record_failure, errors_in_window,
  update_thresholds,
}
use quant_embrace_v.Strategy.CircuitBreaker.Invariant.{
  Call, read, success, failure, count, manual_reset, thresholds, perform, perform_all, IsValid,
}

open-failure :
    (now : ℕ) (c : CircuitBreaker) → c.state_ ≡ open_ → (perform (failure now) c).state_ ≡ open_
unfolding perform record_failure
open-failure now c e = ground arith

open-failures :
    (ts : List ℕ) (c : CircuitBreaker)
    → c.state_ ≡ open_
    → (perform_all (map failure ts) c).state_ ≡ open_
unfolding perform_all
open-failures [] c e = e
open-failures (t ∷ ts) c e = open-failures ts (perform (failure t) c) (open-failure t c e)

closed-failure :
    (now : ℕ) (c : CircuitBreaker)
    → c.state_ ≡ closed
    → let c' = perform (failure now) c in
      (c'.state_ ≡ open_)
      ⊎ ((c'.state_ ≡ closed)
          × (c'.consecutive_errors ≡ c.consecutive_errors + 1)
          × (c'.consecutive_threshold ≡ c.consecutive_threshold)
          × (c'.consecutive_errors < c.consecutive_threshold))
unfolding perform record_failure
closed-failure now c e = ground arith

-- A closed breaker that meets a run of failures, whatever their times, long enough to reach the
-- consecutive threshold, is open after them.
pub failures_open :
    (ts : List ℕ) (c : CircuitBreaker)
    → c.state_ ≡ closed
    → 0 < length ts
    → c.consecutive_threshold ≤ c.consecutive_errors + length ts
    → (perform_all (map failure ts) c).state_ ≡ open_
unfolding perform_all
failures_open [] c e some_failure enough = absurd (omega arith)
failures_open (t ∷ ts) c e some_failure enough = elim (closed-failure t c e) [
  | inl opened ↦ open-failures ts (perform (failure t) c) opened
  | inr (still, counted, same, below) ↦
      failures_open ts (perform (failure t) c) still (omega arith) (omega arith)
]

-- The calls that the time of the reset has not reached: all but a manual reset, at earlier times.
abbrev pub IsBefore : ℕ → Call → Type 0
IsBefore due (read now) = now < due
IsBefore due (success now) = Unit
IsBefore due (failure now) = Unit
IsBefore due (count now) = Unit
IsBefore due manual_reset = ⊥
IsBefore due (thresholds _ _) = Unit

open-perform :
    (k : Call) (c : CircuitBreaker) (since : ℕ)
    → c.state_ ≡ open_
    → c.open_at ≡ some since
    → IsBefore (since + c.reset_seconds) k
    → let c' = perform k c in
      (c'.state_ ≡ open_) × (c'.open_at ≡ some since) × (c'.reset_seconds ≡ c.reset_seconds)
unfolding perform state record_success record_failure errors_in_window update_thresholds
open-perform (read now) c since e at before = ground arith
open-perform (success now) c since e at before = ground arith
open-perform (failure now) c since e at before = ground arith
open-perform (count now) c since e at before = ground arith
open-perform manual_reset c since e at before = absurd before
open-perform (thresholds _ _) c since e at before = ground arith

-- An open breaker stays open, with the time at which it opened, through any calls but a manual
-- reset whose readings of the state come before `open_at + reset_seconds`.
pub open_holds :
    (ks : List Call) (c : CircuitBreaker) (since : ℕ)
    → c.state_ ≡ open_
    → c.open_at ≡ some since
    → All (IsBefore (since + c.reset_seconds)) ks
    → ((perform_all ks c).state_ ≡ open_) × ((perform_all ks c).open_at ≡ some since)
unfolding perform_all
open_holds [] c since e at before = (e, at)
open_holds (k ∷ ks) c since e at before =
    let (still, stamped, same) = open-perform k c since e at before.0 in
    open_holds ks (perform k c) since still stamped (rw same before.1)

half_open-success :
    (now : ℕ) (c : CircuitBreaker)
    → c.state_ ≡ half_open
    → let c' = perform (success now) c in
      (c'.success_threshold ≡ c.success_threshold)
      × (((c.success_threshold ≤ c.half_open_successes + 1) × (c'.state_ ≡ closed))
          ⊎ ((c.half_open_successes + 1 < c.success_threshold)
              × (c'.state_ ≡ half_open)
              × (c'.half_open_successes ≡ c.half_open_successes + 1)))
unfolding perform record_success
half_open-success now c e = ground arith

half_open-successes :
    (ts : List ℕ) (c : CircuitBreaker)
    → c.state_ ≡ half_open
    → c.half_open_successes + length ts ≡ c.success_threshold
    → 0 < length ts
    → (perform_all (map success ts) c).state_ ≡ closed
unfolding perform_all
half_open-successes [] c e wanted some_success = absurd (omega arith)
half_open-successes (t ∷ []) c e wanted some_success = ground (arith, half_open-success t c e)
half_open-successes (t ∷ u ∷ ts) c e wanted some_success =
    let (same, outcome) = half_open-success t c e in
    elim outcome [
      | inl (enough, _) ↦ absurd (omega arith)
      | inr (below, still, counted) ↦
          half_open-successes (u ∷ ts) (perform (success t) c) still (omega arith) (omega arith)
    ]

-- An open breaker in a valid state whose reset time has passed is half-open at the next reading,
-- and is closed by exactly `success_threshold` successes after it, whatever their times.
pub recovery_closes :
    (now since : ℕ) (ts : List ℕ) (c : CircuitBreaker)
    → IsValid c
    → c.state_ ≡ open_
    → c.open_at ≡ some since
    → since + c.reset_seconds ≤ now
    → length ts ≡ c.success_threshold
    → ((state now c).1 ≡ half_open) × ((perform_all (read now ∷ map success ts) c).state_ ≡ closed)
unfolding perform_all
recovery_closes now since ts c v e at due wanted =
    let (seen, field, zeroed, same) = probe in
    (
      seen,
      half_open-successes ts (perform (read now) c) field (omega arith)
          (omega (arith, v.wants_success)),
    )
  where
    probe :
        ((state now c).1 ≡ half_open)
        × ((perform (read now) c).state_ ≡ half_open)
        × ((perform (read now) c).half_open_successes ≡ 0)
        × ((perform (read now) c).success_threshold ≡ c.success_threshold)
    probe = unfold perform state in ground arith

-- A failure while half-open opens the breaker again at once, stamps it with the time of the
-- failure, and is reported as an opening.
pub half_open-failure_reopens :
    (now : ℕ) (c : CircuitBreaker)
    → c.state_ ≡ half_open
    → let (c', opened) = record_failure now c in
      (opened ≡ true) × (c'.state_ ≡ open_) × (c'.open_at ≡ some now) × (c'.half_open_successes ≡ 0)
unfolding record_failure
half_open-failure_reopens now c e = ground arith
