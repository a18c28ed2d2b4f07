-- ===== src/Risk/ContextBuilder/Errors.antt =====
-- risk_context_builder.py: what a context without recorded errors stands on.
use quant_embrace_v.Common.{ℕ, ◌+◌, ◌≤◌, ◌<◌, ◌≡◌, Option, some, List, [], arith}
use quant_embrace_v.Risk.Validators.Position.{PositionItem, get_total_exposure}
use quant_embrace_v.Risk.ContextBuilder.{
  QuoteItem, AnalyticsItem, timestamp_errors, fetch_total_exposure,
}

-- A spread that was captured at most thirty seconds ago.
abbrev pub Quoted : ℕ → Option (Option QuoteItem) → Option ℕ → Type 0
Quoted now read spread =
    (i : QuoteItem) × (x : ℕ) × (at : ℕ) × (read ≡ some (some i))
    × (i.spread ≡ some x)
    × (i.captured_at ≡ some (some at))
    × (now ≤ at + 30000)
    × (spread ≡ some x)

abbrev pub Valued : Option (Option (Option ℕ)) → ℕ → Type 0
Valued read nav = (read ≡ some (some (some nav))) × (0 < nav)

scanned :
    (pages : List (Option (List PositionItem)))
    → (fetch_total_exposure pages).1 ≡ []
    → get_total_exposure pages ≡ some (fetch_total_exposure pages).0
unfolding fetch_total_exposure
scanned pages h = ground arith

-- The sectors are those of an item that was read, with no error in its time.
abbrev pub Analysed : Option (Option AnalyticsItem) → (ℕ → ℕ) → Type 0
Analysed read sectors =
    (i : AnalyticsItem) × (read ≡ some (some i))
    × (sectors ≡ i.sectors)
    × (timestamp_errors i.computed_at ≡ [])
