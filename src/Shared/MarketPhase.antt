-- ===== src/Shared/MarketPhase.antt =====
-- services/shared/zerodha/market_phase.py. A time of day is in seconds after midnight, IST; budgets are
-- in tenths of a request a second.
pub mod Schedule
pub mod Broadcast
mod Tests
use quant_embrace_v.Common.{
  ℕ, ◌+◌, ◌*◌, Bool, true, false, Option, none, some, List, [], ◌∷◌, ◌++◌, map, ltb, leb, ◌==◌,
  if◌then◌else◌,
}

pub data MarketPhase : Type 0 where
  pre_open pre_auction market_open normal pre_close closing post_close : MarketPhase

abbrev pub code : MarketPhase → ℕ
code pre_open = 0
code pre_auction = 1
code market_open = 2
code normal = 3
code pre_close = 4
code closing = 5
code post_close = 6

pub record Budget : Type 0 where
  pub place_order : ℕ
  pub bulk_fill_poll : ℕ
  pub get_positions : ℕ
  pub get_margins : ℕ
  pub get_quotes : ℕ
  pub candle_stream : ℕ
  pub reconcile_audit : ℕ
  pub reserve : ℕ

abbrev budget_of : ℕ → ℕ → ℕ → ℕ → ℕ → ℕ → ℕ → ℕ → Budget
budget_of orders fills positions margins quotes candles audit reserved = record {
  place_order = orders;
  bulk_fill_poll = fills;
  get_positions = positions;
  get_margins = margins;
  get_quotes = quotes;
  candle_stream = candles;
  reconcile_audit = audit;
  reserve = reserved;
}

unfoldable pub phase_budget : MarketPhase → Budget
phase_budget pre_open = budget_of 0 0 0 0 0 30 20 50
phase_budget pre_auction = budget_of 0 5 5 5 5 20 10 50
phase_budget market_open = budget_of 40 30 10 5 5 30 0 10
phase_budget normal = budget_of 20 20 10 10 20 10 0 10
phase_budget pre_close = budget_of 30 30 20 5 5 30 0 10
phase_budget closing = budget_of 10 20 20 10 0 10 0 30
phase_budget post_close = budget_of 0 10 10 0 0 0 20 30

abbrev pub at : ℕ → ℕ → ℕ
at hour minute = hour * 3600 + minute * 60

-- `reversed(_PHASE_SCHEDULE)`, the latest boundary first.
abbrev pub phase_schedule : List (ℕ × MarketPhase)
phase_schedule =
    (at 15 30, post_close)
    ∷ (at 15 20, closing)
    ∷ (at 14 45, pre_close)
    ∷ (at 9 30, normal)
    ∷ (at 9 15, market_open)
    ∷ (at 9 0, pre_auction)
    ∷ (at 8 0, pre_open)
    ∷ []

unfoldable pub find_phase : ℕ → List (ℕ × MarketPhase) → MarketPhase
find_phase now [] = post_close
find_phase now ((boundary, phase) ∷ rest) = if leb boundary now then phase else find_phase now rest

unfoldable pub compute_phase : ℕ → MarketPhase
compute_phase now = find_phase now phase_schedule

-- A listener, by its number, with the phases that it was called with; a call that raises is caught.
pub record Governor : Type 0 where
  pub phase : MarketPhase
  pub listeners : List ℕ
  pub running : Bool
  pub calls : List (ℕ × MarketPhase)

unfoldable pub new : ℕ → Governor
new now = record { phase = compute_phase now; listeners = []; running = false; calls = [] }

unfoldable pub add_listener : ℕ → Governor → Governor
add_listener l g = record g { listeners = g.listeners ++ (l ∷ []) }

-- `list.remove`: the first occurrence, or none for a ValueError.
unfoldable pub remove_listener : ℕ → List ℕ → Option (List ℕ)
remove_listener l [] = none
remove_listener l (x ∷ xs) =
    let rest = remove_listener l xs in
    if x == l then some xs else elim rest [ some ys ↦ some (x ∷ ys) | none ↦ none ]

unfoldable pub is_market_open : Governor → Bool
is_market_open g = elim g.phase [
  | market_open ↦ true
  | normal ↦ true
  | pre_close ↦ true
  | closing ↦ true
  | _ ↦ false
]

unfoldable pub is_mis_window : Governor → Bool
is_mis_window g = elim g.phase [ pre_close ↦ true | _ ↦ false ]

unfoldable pub is_candle_prefetch_time : Governor → Bool
is_candle_prefetch_time g = elim g.phase [ pre_open ↦ true | _ ↦ false ]

unfoldable pub current_budget : Governor → Budget
current_budget g = phase_budget g.phase

unfoldable pub broadcast : MarketPhase → Governor → Governor
broadcast p g = record g { calls = g.calls ++ map (λ l. (l, p)) g.listeners }

-- One check of the loop.
unfoldable pub check : ℕ → Governor → Governor
check now g =
    let p = compute_phase now in
    if code p == code g.phase then g else broadcast p (record g { phase = p })

unfoldable pub checks : List ℕ → Governor → Governor
checks [] g = g
checks (now ∷ times) g = checks times (check now g)

-- The loop looks at this only after a check: a governor that is stopped in its sleep checks once more.
unfoldable pub stop : Governor → Governor
stop g = record g { running = false }

-- `run`, to the end of the times at which it wakes.
unfoldable pub run : List ℕ → Governor → Governor
run times g = record (checks times (broadcast g.phase (record g { running = true }))) {
  running = false;
}
