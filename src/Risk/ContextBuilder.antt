-- ===== src/Risk/ContextBuilder.antt =====
-- services/risk_engine/context/risk_context_builder.py. Each read gives its value, or a default with an
-- error that is recorded; what an error says besides the read that it comes from is left out. None stands
-- for a read that raises, as every read does without a client.
pub mod Errors
mod Tests
use quant_embrace_v.Common.{
  ℕ, ◌+◌, true, false, Bool, Option, none, some, List, [], ◌∷◌, ◌++◌, ltb, ℤ, pos, if◌then◌else◌,
}
use quant_embrace_v.Execution.Orders.Status.{OrderStatus, pending, placed}
use quant_embrace_v.Risk.Limits.{RiskLimits}
use quant_embrace_v.Risk.Signals.{Signal}
use quant_embrace_v.Risk.Validators.Position.{PositionItem, total_quantity, get_total_exposure}
use quant_embrace_v.Risk.Validators.Context.{
  DataError, position_state, pending_quantity, adv, live_spread, portfolio_nav, analytics_snapshot,
  total_exposure, PositionState, RiskContext,
}

-- The row of a position, by the fields of the projection.
pub record HeldItem : Type 0 where
  pub confirmed : Option ℤ
  pub avg_entry : Option ℕ

-- A text that is read as a time, or none if it is no time.
abbrev pub Timestamp : Type 0
Timestamp = Option ℕ

pub record QuoteItem : Type 0 where
  pub spread : Option ℕ
  pub captured_at : Option Timestamp

pub record VolumeItem : Type 0 where
  pub volume_20d : Option ℕ
  pub volume_30d : Option ℕ

pub record AnalyticsItem : Type 0 where
  pub sectors : ℕ → ℕ
  pub computed_at : Option Timestamp

-- What the reads of one `build` give.
pub record Reads : Type 0 where
  pub held_read : Option (Option HeldItem)
  pub pending_query : OrderStatus → Option (List (Option ℕ))
  pub volume_read : Option (Option VolumeItem)
  pub quote_read : Option (Option QuoteItem)
  pub nav_read : Option (Option (Option ℕ))
  pub analytics_read : Option (Option AnalyticsItem)
  pub exposure_pages : List (Option (List PositionItem))

abbrev or_zero : Option ℕ → ℕ
or_zero none = 0
or_zero (some n) = n

abbrev or_flat : Option ℤ → ℤ
or_flat none = pos 0
or_flat (some q) = q

abbrev flat : PositionState
flat = record { confirmed_quantity = pos 0; pending_qty = 0; avg_entry_price = 0 }

unfoldable pub fetch_position_state : Option (Option HeldItem) → PositionState × List DataError
fetch_position_state none = (flat, position_state ∷ [])
fetch_position_state (some none) = (flat, [])
fetch_position_state (some (some i)) = (
  record {
    confirmed_quantity = or_flat i.confirmed;
    pending_qty = 0;
    avg_entry_price = or_zero i.avg_entry;
  },
  [],
)

abbrev status_total : Option (List (Option ℕ)) → ℕ × List DataError
status_total none = (0, pending_quantity ∷ [])
status_total (some qs) = (total_quantity qs, [])

-- The two statuses of the loop. A query that fails does not end it.
unfoldable pub fetch_pending_quantity :
    (OrderStatus → Option (List (Option ℕ))) → ℕ × List DataError
fetch_pending_quantity query =
    let (n, errors) = status_total (query pending) in
    let (m, more) = status_total (query placed) in (n + m, errors ++ more)

abbrev prefer : Option ℕ → Option ℕ → Option ℕ × List DataError
prefer (some a) b = (some a, [])
prefer none (some b) = (some b, [])
prefer none none = (none, adv ∷ [])

unfoldable pub fetch_adv : Option (Option VolumeItem) → Option ℕ × List DataError
fetch_adv none = (none, adv ∷ [])
fetch_adv (some none) = (none, adv ∷ [])
fetch_adv (some (some i)) = prefer i.volume_20d i.volume_30d

abbrev pub stale_quote_threshold : ℕ
stale_quote_threshold = 30000

abbrev fresh_spread : ℕ → Option ℕ → Option Timestamp → Option ℕ × List DataError
fresh_spread now none stamp = (none, live_spread ∷ [])
fresh_spread now (some x) none = (none, live_spread ∷ [])
fresh_spread now (some x) (some none) = (none, live_spread ∷ [])
fresh_spread now (some x) (some (some at)) =
    if ltb (at + stale_quote_threshold) now then (none, live_spread ∷ []) else (some x, [])

unfoldable pub fetch_live_spread_bps : ℕ → Option (Option QuoteItem) → Option ℕ × List DataError
fetch_live_spread_bps now none = (none, live_spread ∷ [])
fetch_live_spread_bps now (some none) = (none, live_spread ∷ [])
fetch_live_spread_bps now (some (some i)) = fresh_spread now i.spread i.captured_at

abbrev positive_or : ℕ → ℕ → ℕ × List DataError
positive_or fallback value = if ltb 0 value then (value, []) else (fallback, portfolio_nav ∷ [])

unfoldable pub fetch_portfolio_nav : RiskLimits → Option (Option (Option ℕ)) → ℕ × List DataError
fetch_portfolio_nav l none = (l.portfolio_value, portfolio_nav ∷ [])
fetch_portfolio_nav l (some none) = (l.portfolio_value, portfolio_nav ∷ [])
fetch_portfolio_nav l (some (some value)) = positive_or l.portfolio_value (or_zero value)

abbrev nothing_exposed : ℕ → ℕ
nothing_exposed name = 0

abbrev timestamp_errors : Option Timestamp → List DataError
timestamp_errors none = analytics_snapshot ∷ []
timestamp_errors (some none) = analytics_snapshot ∷ []
timestamp_errors (some (some at)) = []

-- A snapshot whose time cannot be read is used, and recorded.
unfoldable pub fetch_analytics_snapshot : Option (Option AnalyticsItem) → (ℕ → ℕ) × List DataError
fetch_analytics_snapshot none = (nothing_exposed, analytics_snapshot ∷ [])
fetch_analytics_snapshot (some none) = (nothing_exposed, analytics_snapshot ∷ [])
fetch_analytics_snapshot (some (some i)) = (i.sectors, timestamp_errors i.computed_at)

unfoldable pub fetch_total_exposure : List (Option (List PositionItem)) → ℕ × List DataError
fetch_total_exposure pages = elim (get_total_exposure pages) [
  | some n ↦ (n, [])
  | none ↦ (0, total_exposure ∷ [])
]

-- The reads run side by side; their errors are listed here in the order of the calls.
unfoldable pub build : ℕ → RiskLimits → Reads → Signal → RiskContext
build now l r s =
    let (state, e1) = fetch_position_state r.held_read in
    let (waiting, e2) = fetch_pending_quantity r.pending_query in
    let (volume, e3) = fetch_adv r.volume_read in
    let (spread, e4) = fetch_live_spread_bps now r.quote_read in
    let (value, e5) = fetch_portfolio_nav l r.nav_read in
    let (sectors, e6) = fetch_analytics_snapshot r.analytics_read in
    let (exposed, e7) = fetch_total_exposure r.exposure_pages in
    record {
      signal = s;
      held = record state { pending_qty = waiting };
      current_exposure = exposed;
      nav = value;
      sector_exposures = sectors;
      live_spread_bps = spread;
      adv_20d = volume;
      risk_data_errors = e1 ++ (e2 ++ (e3 ++ (e4 ++ (e5 ++ (e6 ++ e7)))));
    }
