-- ===== src/Shared/MarketPhase/Schedule.antt =====
-- market_phase.py: the phase of a time of day, and what its budget leaves.
use quant_embrace_v.Common.{ℕ, ◌+◌, ◌≤◌, ◌<◌, ◌≡◌, ◌⊎◌, ◌↔◌, arith}
use quant_embrace_v.Shared.MarketPhase.{
  MarketPhase, pre_open, pre_auction, market_open, normal, pre_close, closing, post_close, Budget,
  phase_budget, compute_phase, find_phase,
}

-- The hours of a phase, in seconds after midnight.
abbrev pub Within : MarketPhase → ℕ → Type 0
Within pre_open t = (28800 ≤ t) × (t < 32400)
Within pre_auction t = (32400 ≤ t) × (t < 33300)
Within market_open t = (33300 ≤ t) × (t < 34200)
Within normal t = (34200 ≤ t) × (t < 53100)
Within pre_close t = (53100 ≤ t) × (t < 55200)
Within closing t = (55200 ≤ t) × (t < 55800)
Within post_close t = (t < 28800) ⊎ (55800 ≤ t)

-- Each time of day has exactly one phase, and the walk over the schedule finds it: 8:00 to 9:00, 9:00
-- to 9:15, 9:15 to 9:30, 9:30 to 14:45, 14:45 to 15:20, 15:20 to 15:30, each without its end, and the
-- rest of the day.
pub compute_phase_iff : (p : MarketPhase) (t : ℕ) → (compute_phase t ≡ p) ↔ Within p t
unfolding compute_phase find_phase
compute_phase_iff pre_open t = ground arith
compute_phase_iff pre_auction t = ground arith
compute_phase_iff market_open t = ground arith
compute_phase_iff normal t = ground arith
compute_phase_iff pre_close t = ground arith
compute_phase_iff closing t = ground arith
compute_phase_iff post_close t = ground arith

-- All that is deducted from the ten requests a second.
abbrev pub deducted : Budget → ℕ
deducted b =
    b.place_order + b.bulk_fill_poll + b.get_positions + b.get_margins + b.get_quotes
    + b.reconcile_audit + b.reserve

-- In every phase the shares of the order API, the reserve among them, are at most the ten requests a
-- second of the broker, and the reserve is at least one of them; only in the four phases of the open
-- market is there a share for placing orders.
pub budget_fits :
    (t : ℕ)
    → let b = phase_budget (compute_phase t) in
      (deducted b ≤ 100) × (10 ≤ b.reserve) × ((0 < b.place_order) ↔ ((33300 ≤ t) × (t < 55800)))
unfolding compute_phase find_phase phase_budget
budget_fits t = ground arith
