-- ===== src/Strategy/CircuitBreaker/Window.antt =====
-- The rolling error window of circuit_breaker.py (`_evict_old_errors`, `errors_in_window`)
-- against its meaning, and the test by which `record_failure` opens a closed breaker.
use quant_embrace_v.Common.{
  ℕ, ◌+◌, ◌≤◌, ◌≡◌, refl, ◌↔◌, ◌⊎◌, inl, inr, true, false, List, [], ◌∷◌, ◌++◌, arith, ltb,
  if◌then◌else◌, length, All, Bool-cases,
}
use quant_embrace_v.Strategy.CircuitBreaker.{CircuitBreaker, closed, open_, evict, record_failure}

-- Times in the order in which they were taken.
abbrev pub IsAscending : List ℕ → Type 0
IsAscending [] = Unit
IsAscending (t ∷ ts) = All (λ u. t ≤ u) ts × IsAscending ts

-- The errors that are no older than the window, wherever they stand.
abbrev pub recent : ℕ → ℕ → List ℕ → List ℕ
recent window now [] = []
recent window now (t ∷ ts) =
    let rest = recent window now ts in if ltb (t + window) now then rest else t ∷ rest

recent-eq_of_young :
    (window now t : ℕ) (ts : List ℕ)
    → now ≤ t + window
    → All (λ u. t ≤ u) ts
    → recent window now ts ≡ ts
recent-eq_of_young window now t [] h a = refl
recent-eq_of_young window now t (u ∷ ts) h a =
    ground (arith, recent-eq_of_young window now t ts h a.1)

-- Dropping old times from the left of an ascending deque leaves exactly the times that are no
-- older than the window.
pub evict-eq-recent :
    (window now : ℕ) (ts : List ℕ) → IsAscending ts → evict window now ts ≡ recent window now ts
unfolding evict
evict-eq-recent window now [] h = refl
evict-eq-recent window now (t ∷ ts) h = elim (Bool-cases (ltb (t + window) now)) [
  | inl old ↦ rw old (evict-eq-recent window now ts h.1)
  | inr young ↦ rw young (ground (arith, recent-eq_of_young window now t ts (ground arith) h.0))
]

pub IsAscending-append :
    (now : ℕ) (ts : List ℕ) → IsAscending ts → All (λ u. u ≤ now) ts → IsAscending (ts ++ now ∷ [])
IsAscending-append now [] h a = (tt, tt)
IsAscending-append now (t ∷ ts) h a = (All-snoc t ts h.0 a.0, IsAscending-append now ts h.1 a.1)
  where
    All-snoc :
        (t : ℕ) (us : List ℕ) → All (λ u. t ≤ u) us → t ≤ now → All (λ u. t ≤ u) (us ++ now ∷ [])
    All-snoc t [] h le = (le, tt)
    All-snoc t (u ∷ us) h le = (h.0, All-snoc t us h.1 le)

pub evict-IsAscending :
    (window now : ℕ) (ts : List ℕ) → IsAscending ts → IsAscending (evict window now ts)
unfolding evict
evict-IsAscending window now [] h = tt
evict-IsAscending window now (t ∷ ts) h = ground (arith, evict-IsAscending window now ts h.1)

-- A closed breaker whose error times are in order opens at a failure exactly when, with this
-- failure counted, the errors of the window reach the rate threshold or the consecutive errors
-- reach theirs; the method reports whether it opened, and otherwise the breaker stays closed.
pub record_failure_opens_iff :
    (now : ℕ) (c : CircuitBreaker)
    → c.state_ ≡ closed
    → IsAscending c.error_times
    → All (λ u. u ≤ now) c.error_times
    → let (c', opened) = record_failure now c in
      let in_window = length (recent c.rate_window_seconds now (c.error_times ++ now ∷ [])) in
      ((opened ≡ true)
        ↔ ((c.rate_threshold ≤ in_window) ⊎ (c.consecutive_threshold ≤ c.consecutive_errors + 1)))
      × ((opened ≡ true) ↔ (c'.state_ ≡ open_))
      × ((opened ≡ false) ↔ (c'.state_ ≡ closed))
unfolding record_failure
record_failure_opens_iff now c e asc past = ground (
  arith,
  evict-eq-recent c.rate_window_seconds now (c.error_times ++ now ∷ [])
      (IsAscending-append now c.error_times asc past),
)
