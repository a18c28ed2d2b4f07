-- ===== src/Shared/MarketPhase/Tests.antt =====
-- market_phase.py: a morning with two listeners.
use quant_embrace_v.Common.{ℕ, ◌≡◌, ◌↔◌, refl, false, List, [], ◌∷◌, ◌++◌}
use quant_embrace_v.Shared.MarketPhase.{
  pre_auction, market_open, normal, Governor, new, add_listener, compute_phase, find_phase,
  broadcast, check, checks, run,
}
use quant_embrace_v.Shared.MarketPhase.Schedule.{Within, compute_phase_iff}
use quant_embrace_v.Shared.MarketPhase.Broadcast.{
  changes, announced, last_phase, NoRepeat, run_announces,
}

abbrev governor : Governor
governor = record { phase = pre_auction; listeners = 1 ∷ 2 ∷ []; running = false; calls = [] }

governor_is_new : add_listener 2 (add_listener 1 (new 32400)) ≡ governor
unfolding new add_listener compute_phase find_phase
governor_is_new = refl

abbrev times : List ℕ
times = 32410 ∷ 33300 ∷ 33310 ∷ 34205 ∷ []

morning :
    (run times governor).calls
    ≡ (1, pre_auction)
      ∷ (2, pre_auction)
      ∷ (1, market_open)
      ∷ (2, market_open)
      ∷ (1, normal)
      ∷ (2, normal)
      ∷ []
unfolding run checks check broadcast compute_phase find_phase
morning = refl

run_announces_example :
    let heard = changes pre_auction times in
    ((run times governor).calls ≡ [] ++ announced governor.listeners (pre_auction ∷ heard))
    × NoRepeat pre_auction heard
    × ((run times governor).phase ≡ last_phase pre_auction heard)
run_announces_example = run_announces times governor

compute_phase_iff_example : (compute_phase 34199 ≡ market_open) ↔ Within market_open 34199
compute_phase_iff_example = compute_phase_iff market_open 34199
