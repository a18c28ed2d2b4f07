-- ===== src/Strategy/Runner/Cap.antt =====
-- The daily cap of strategy_runner.py over whole runs of dispatches.
use quant_embrace_v.Common.{
  inr, inl, ◌≤◌, Bool, All, ℕ, suc, ◌+◌, ◌<◌, ◌≡◌, ◌⊎◌, true, Option, none, some, List, [], ◌∷◌,
  arith, is_some, if◌then◌else◌,
}
use quant_embrace_v.Strategy.Runner.{
  Runner, Outcome, raises, returns, Signal, DataQuality, should_dispatch, check_cap,
  apply_paper_flag, guarded_call, dispatch_tick, dispatch_bar,
}

pub data Event : Type 0 where
  on_tick : ℕ → ℕ → Outcome → Event
  on_bar : ℕ → ℕ → DataQuality → Outcome → Event

abbrev pub date_of : Event → ℕ
date_of (on_tick now today outcome) = today
date_of (on_bar now today quality outcome) = today

unfoldable pub dispatch : Event → Runner → Runner × Option Signal
dispatch (on_tick now today outcome) r = dispatch_tick now today outcome r
dispatch (on_bar now today quality outcome) r = dispatch_bar now today quality outcome r

-- How many signals come out of a run of dispatches, and the runner after it.
unfoldable pub emitted : List Event → Runner → ℕ
emitted [] r = 0
emitted (e ∷ es) r =
    let (r', signal) = dispatch e r in
    let rest = emitted es r' in if is_some signal then suc rest else rest

-- One dispatch on the date of the counter keeps cap and date, and counts the signal that it lets out.
dispatch_counts :
    (e : Event) (r : Runner)
    → date_of e ≡ r.cap_date
    → 0 < r.config.max_signals_per_day
    → let (r', signal) = dispatch e r in
      (r'.cap_date ≡ r.cap_date)
      × (r'.config ≡ r.config)
      × (((signal ≡ none) × (r'.signals_today ≡ r.signals_today))
          ⊎ ((is_some signal ≡ true)
              × (r'.signals_today ≡ r.signals_today + 1)
              × (r.signals_today < r.config.max_signals_per_day)))
unfolding dispatch dispatch_tick dispatch_bar should_dispatch guarded_call check_cap
    apply_paper_flag
dispatch_counts (on_tick now today raises) r d capped = ground arith
dispatch_counts (on_tick now today (returns none)) r d capped = ground arith
dispatch_counts (on_tick now today (returns (some x))) r d capped = ground arith
dispatch_counts (on_bar now today q raises) r d capped = ground arith
dispatch_counts (on_bar now today q (returns none)) r d capped = ground arith
dispatch_counts (on_bar now today q (returns (some x))) r d capped = ground arith

-- On one date, a runner with a positive cap that it has not passed lets out no more signals, in
-- any run of dispatches, than the cap leaves.
pub cap_bounds_day :
    (es : List Event) (r : Runner)
    → All (λ e. date_of e ≡ r.cap_date) es
    → 0 < r.config.max_signals_per_day
    → r.signals_today ≤ r.config.max_signals_per_day
    → r.signals_today + emitted es r ≤ r.config.max_signals_per_day
unfolding emitted
cap_bounds_day [] r dated capped within = omega arith
cap_bounds_day (e ∷ es) r dated capped within =
    let (same_date, same_config, counted) = dispatch_counts e r dated.0 capped in
    elim counted [
      | inl (quiet, stays) ↦ rw (quiet) (
          rw stays at (
            rw same_config at (
              cap_bounds_day es (dispatch e r).0 (rw same_date dated.1) (rw same_config capped)
                (rw (stays, same_config) within))))
      | inr (loud, grows, below) ↦ rw loud (
          let later : r.signals_today + 1 + emitted es (dispatch e r).0
              ≤ r.config.max_signals_per_day =
            rw grows at (
              rw same_config at (
                cap_bounds_day es (dispatch e r).0 (rw same_date dated.1) (rw same_config capped)
                  (rw (grows, same_config) (omega arith)))) in
          omega arith)
    ]

-- Every signal that a dispatch lets out is the strategy's own, carries the paper flag of the
-- runner's configuration, and is counted in the day and in the totals.
pub dispatch_stamps :
    (now today : ℕ) (outcome : Outcome) (r : Runner) {x : ℕ} {paper : Bool}
    → (dispatch_tick now today outcome r).1 ≡ some (x, paper)
    → let r' = (dispatch_tick now today outcome r).0 in
      (outcome ≡ returns (some x))
      × (paper ≡ r.config.paper_trade)
      × (r'.total_signals ≡ r.total_signals + 1)
      × (r'.total_paper_signals ≡ r.total_paper_signals + (if paper then 1 else 0))
      × (r'.cap_date ≡ today)
unfolding dispatch_tick should_dispatch guarded_call check_cap apply_paper_flag
dispatch_stamps now today raises r h = ground arith
dispatch_stamps now today (returns none) r h = ground arith
dispatch_stamps now today (returns (some x)) r h = ground arith
