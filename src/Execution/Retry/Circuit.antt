-- ===== src/Execution/Retry/Circuit.antt =====
-- The circuit breaker of retry_handler.py.
use quant_embrace_v.Common.{
  ◌∙◌, ℕ, ◌+◌, ◌-◌, ◌≤◌, ◌<◌, ◌≡◌, refl, ◌≢◌, ◌⊎◌, List, [], ◌∷◌, arith, length,
}
use quant_embrace_v.Execution.Retry.{
  RetryHandler, closed, open_, half_open, pass, blocked, check_circuit, record_success,
  record_failure,
}

abbrev pub cooled_at : RetryHandler → ℕ
cooled_at h = h.last_failure_time + h.cooldown_seconds

-- An open circuit raises exactly until the cooldown after the last failure has passed, with the
-- time that remains, and then lets a call through half-open; any other circuit lets it through
-- and stays as it is.
pub check_circuit_cases :
    (now : ℕ) (h : RetryHandler)
    → (h.state ≢ open_) × (check_circuit now h ≡ (h, pass))
      ⊎ (h.state ≡ open_)
        × (cooled_at h ≤ now)
        × (check_circuit now h ≡ (record h { state = half_open }, pass))
      ⊎ (h.state ≡ open_)
        × (now < cooled_at h)
        × (check_circuit now h ≡ (h, blocked (cooled_at h - now)))
unfolding check_circuit
check_circuit_cases now h = ground arith

-- A call of one of the methods that keep the circuit.
pub data Event : Type 0 where
  failed : ℕ → Event
  succeeded : Event

unfoldable pub record_all : List Event → RetryHandler → RetryHandler
record_all [] h = h
record_all (failed now ∷ es) h = record_all es (record_failure now h)
record_all (succeeded ∷ es) h = record_all es (record_success h)

-- The failures since the last success, with those that the handler has counted before.
abbrev pub trailing : List Event → ℕ → ℕ
trailing [] n = n
trailing (failed now ∷ es) n = trailing es (n + 1)
trailing (succeeded ∷ es) n = trailing es 0

record_all_from :
    (es : List Event) (h : RetryHandler)
    → (record_all es h).consecutive_failures ≡ trailing es h.consecutive_failures
unfolding record_all record_failure record_success
record_all_from [] h = refl
record_all_from (failed now ∷ es) h = ground (arith, record_all_from es (record_failure now h))
record_all_from (succeeded ∷ es) h = record_all_from es (record_success h)

-- What holds of a handler between two calls of its methods.
pub record IsValid (h : RetryHandler) : Type 0 where
  pub closed_below : h.state ≡ closed → h.consecutive_failures < h.failure_threshold
  pub tripped_failed : h.state ≢ closed → 0 < h.consecutive_failures

pub check_circuit-IsValid :
    (now : ℕ) (h : RetryHandler) → IsValid h → IsValid (check_circuit now h).0
unfolding check_circuit
check_circuit-IsValid now h v = ground arith

pub record_failure-IsValid :
    (now : ℕ) (h : RetryHandler) → IsValid h → IsValid (record_failure now h)
unfolding record_failure
record_failure-IsValid now h v = ground arith

pub record_success-IsValid :
    (h : RetryHandler) → 0 < h.failure_threshold → IsValid (record_success h)
unfolding record_success
record_success-IsValid h positive = ground arith

trips_from :
    (es : List Event) (h : RetryHandler)
    → IsValid h
    → 0 < h.failure_threshold
    → h.state ≢ half_open
    → IsValid (record_all es h) × ((record_all es h).failure_threshold ≡ h.failure_threshold)
unfolding record_all
trips_from [] h v positive full = (v, refl)
trips_from (failed now ∷ es) h v positive full =
    let (same, still) = keeps in
    let (valid, chain) =
      trips_from es (record_failure now h) (record_failure-IsValid now h v) (rw same positive)
        still in
    (valid, chain ∙ same)
  where
    keeps :
        ((record_failure now h).failure_threshold ≡ h.failure_threshold)
        × ((record_failure now h).state ≢ half_open)
    keeps = unfold record_failure in ground arith
trips_from (succeeded ∷ es) h v positive full =
    let (same, still) = keeps in
    let (valid, chain) =
      trips_from es (record_success h) (record_success-IsValid h positive) (rw same positive)
        still in
    (valid, chain ∙ same)
  where
    keeps :
        ((record_success h).failure_threshold ≡ h.failure_threshold)
        × ((record_success h).state ≢ half_open)
    keeps = unfold record_success in ground arith

-- Whatever outcomes a valid handler that is not half-open records, with a positive threshold, its
-- count is the number of failures since the last success, and where that count has reached the
-- threshold the circuit is not closed.
pub threshold_trips :
    (es : List Event) (h : RetryHandler)
    → IsValid h
    → 0 < h.failure_threshold
    → h.state ≢ half_open
    → ((record_all es h).consecutive_failures ≡ trailing es h.consecutive_failures)
      × ((trailing es h.consecutive_failures < h.failure_threshold)
          ⊎ ((record_all es h).state ≢ closed))
threshold_trips es h v positive full =
    let counted = record_all_from es h in
    let (valid, same) = trips_from es h v positive full in
    (counted, ground (arith, valid.closed_below))

-- The checks of several callers, one after another, at the given times.
unfoldable pub check_all : List ℕ → RetryHandler → RetryHandler × ℕ
check_all [] h = (h, 0)
check_all (now ∷ times) h =
    let (h', checked) = check_circuit now h in
    let (h'', passed) = check_all times h' in
    (h'', elim checked [ pass ↦ passed + 1 | blocked _ ↦ passed ])

check_all_half_open :
    (times : List ℕ) (h : RetryHandler)
    → h.state ≡ half_open
    → check_all times h ≡ (h, length times)
unfolding check_all check_circuit
check_all_half_open [] h e = refl
check_all_half_open (now ∷ times) h e = ground (arith, check_all_half_open times h e)

-- After the cooldown of an open circuit every caller that checks is let through, however many
-- they are, until one of their calls has been recorded: the first check makes it half-open, and
-- the others leave it so.
pub half_open_admits_all :
    (now : ℕ) (times : List ℕ) (h : RetryHandler)
    → h.state ≡ open_
    → cooled_at h ≤ now
    → check_all (now ∷ times) h ≡ (record h { state = half_open }, length times + 1)
unfolding check_all check_circuit
half_open_admits_all now times h e cooled =
    ground (arith, check_all_half_open times (record h { state = half_open }) refl)
