-- ===== src/Risk/DailyLoss/Fills.antt =====
-- loss_validator.py: record_fill over the rows of the risk-state table that it owns. The table is
-- DynamoDB: reads, unconditional puts, puts under `attribute_not_exists(PK)`, and ADD, each atomic. One
-- symbol's fills are taken one after the other, under its lock.
use quant_embrace_v.Common.{
  ℕ, ◌+◌, ◌*◌, ◌/◌, min, Bool, true, false, not, Option, none, some, ◌&&◌, ◌||◌, ltb, ◌==◌, ◌≡◌, ℤ,
  pos, above, below, difference, ◌+ℤ◌, is_some, if◌then◌else◌,
}
use quant_embrace_v.Execution.Orders.Database.{Fate, answered, lost_before, lost_after}
use quant_embrace_v.Execution.SafeActions.RiskState.{put_seen}
use quant_embrace_v.Risk.Limits.{RiskLimits, update_portfolio_value}
use quant_embrace_v.Risk.Signals.{Direction, buy, sell}
use quant_embrace_v.Risk.DailyLoss.{LossValidator, PnlReads, get_unrealized_pnl, get_daily_pnl}

-- `FILL#{id}`, `PNL_SYMBOL#{date}#{symbol}`, `PNL_DAY#{date}` and the NAV row.
pub data Key : Type 0 where
  fill_key : ℕ → Key
  symbol_key : ℕ → ℕ → Key
  day_key : ℕ → Key
  nav_key : Key

abbrev pub key_eq : Key → Key → Bool
key_eq (fill_key a) (fill_key b) = a == b
key_eq (symbol_key d a) (symbol_key e b) = d == e && a == b
key_eq (day_key d) (day_key e) = d == e
key_eq nav_key nav_key = true
key_eq (fill_key _) (symbol_key _ _) = false
key_eq (fill_key _) (day_key _) = false
key_eq (fill_key _) nav_key = false
key_eq (symbol_key _ _) (fill_key _) = false
key_eq (symbol_key _ _) (day_key _) = false
key_eq (symbol_key _ _) nav_key = false
key_eq (day_key _) (fill_key _) = false
key_eq (day_key _) (symbol_key _ _) = false
key_eq (day_key _) nav_key = false
key_eq nav_key (fill_key _) = false
key_eq nav_key (symbol_key _ _) = false
key_eq nav_key (day_key _) = false

pub record SymbolRow : Type 0 where
  pub quantity : ℤ
  pub avg_price : ℕ
  pub realized : ℤ

pub data Item : Type 0 where
  fill_row : Item
  symbol_row : SymbolRow → Item
  day_row : ℤ → Item
  nav_row : ℤ → Item

-- The number that ADD finds, and 0 where there is none.
abbrev pub added : ℤ → Option Item → ℤ
added delta (some (day_row z)) = z +ℤ delta
added delta (some fill_row) = delta
added delta (some (symbol_row r)) = r.realized +ℤ delta
added delta (some (nav_row z)) = delta
added delta none = delta

pub record PnlTable : Type 1 where
  pub Table : Type 0
  pub get_item : Table → Key → Option Item
  pub put_item : Key → Item → Table → Table
  pub put_absent : Key → Item → Table → Bool × Table
  pub add_item : Key → ℤ → Table → Table
  pub get_item-put_item :
      (k : Key) (i : Item) (t : Table) (j : Key)
      → get_item (put_item k i t) j ≡ (if key_eq k j then some i else get_item t j)
  pub put_absent_reply :
      (k : Key) (i : Item) (t : Table) → (put_absent k i t).0 ≡ not (is_some (get_item t k))
  pub get_item-put_absent :
      (k : Key) (i : Item) (t : Table) (j : Key)
      → get_item (put_absent k i t).1 j
        ≡ (if not (is_some (get_item t k)) && key_eq k j then some i else get_item t j)
  pub get_item-add_item :
      (d : ℕ) (delta : ℤ) (t : Table) (j : Key)
      → get_item (add_item (day_key d) delta t) j ≡ (
          if key_eq (day_key d) j
          then some (day_row (added delta (get_item t (day_key d))))
          else get_item t j)

pub record Fill : Type 0 where
  pub fill_id : ℕ
  pub symbol : ℕ
  pub direction : Direction
  pub quantity : ℕ
  pub price : ℕ

abbrev pub minus : ℕ → ℤ
minus n = difference 0 n

-- The arithmetic of a fill: the row after it, and what it realizes.
unfoldable pub fill_symbol : Direction → ℕ → ℕ → SymbolRow → SymbolRow × ℤ
fill_symbol buy q p r =
    let new_qty = r.quantity +ℤ pos q in
    let delta =
      difference (r.avg_price * min q (below r.quantity)) (p * min q (below r.quantity)) in
    if ltb 0 (below r.quantity)
    then (
      record {
        quantity = new_qty;
        avg_price =
            if ltb 0 (below new_qty) then r.avg_price else if ltb 0 (above new_qty) then p else 0;
        realized = r.realized +ℤ delta;
      },
      delta,
    )
    else (
      record {
        quantity = new_qty;
        avg_price = (above r.quantity * r.avg_price + q * p) / above new_qty;
        realized = r.realized +ℤ pos 0;
      },
      pos 0,
    )
fill_symbol sell q p r =
    let new_qty = r.quantity +ℤ minus q in
    let delta =
      difference (p * min q (above r.quantity)) (r.avg_price * min q (above r.quantity)) in
    if ltb 0 (above r.quantity)
    then (
      record {
        quantity = new_qty;
        avg_price =
            if ltb 0 (above new_qty) then r.avg_price else if ltb 0 (below new_qty) then p else 0;
        realized = r.realized +ℤ delta;
      },
      delta,
    )
    else (
      record {
        quantity = new_qty;
        avg_price = (below r.quantity * r.avg_price + q * p) / below new_qty;
        realized = r.realized +ℤ pos 0;
      },
      pos 0,
    )

abbrev pub opened : Option Item → SymbolRow
opened (some (symbol_row r)) = r
opened (some fill_row) = record { quantity = pos 0; avg_price = 0; realized = pos 0 }
opened (some (day_row z)) = record { quantity = pos 0; avg_price = 0; realized = z }
opened (some (nav_row z)) = record { quantity = pos 0; avg_price = 0; realized = pos 0 }
opened none = record { quantity = pos 0; avg_price = 0; realized = pos 0 }

abbrev pub day_total : Option Item → ℤ
day_total i = added (pos 0) i

-- The fates of the four writes of `record_fill`: the reservation, the symbol's row, the total of
-- the day, and the NAV.
pub record Fates : Type 0 where
  pub of_reserve : Fate
  pub of_symbol : Fate
  pub of_total : Fate
  pub of_nav : Fate

-- The state of the risk engine that a fill changes.
pub record Books : Type 0 where
  pub loss : LossValidator
  pub limits : RiskLimits

-- What `record_fill` gives: it raises, or the fill was there, with the result of the day, or it is
-- counted, with what it realizes and the result of the day.
pub data Recorded : Type 0 where
  raised : Recorded
  duplicate : ℤ → Recorded
  counted : ℤ → ℤ → Recorded

abbrev pub repeated : Option ℤ → Recorded
repeated (some z) = duplicate z
repeated none = raised

module _ (db : PnlTable) where
  open db use {Table, get_item, put_item, put_absent, add_item}

  -- What the fill realizes, or none if the write raises.
  unfoldable pub apply_fill_to_daily_symbol_pnl : ℕ → Fill → Fate → Table → Option ℤ × Table
  apply_fill_to_daily_symbol_pnl today f fate t =
      let (r, delta) =
        fill_symbol f.direction f.quantity f.price
          (opened (get_item t (symbol_key today f.symbol))) in
      let (seen, t') = put_seen fate t (put_item (symbol_key today f.symbol) (symbol_row r) t) in
      (if seen then some delta else none, t')

  -- The total of the day after the fill, or none if a write raises. The NAV is derived from it.
  unfoldable pub update_daily_pnl_and_nav :
      ℕ → ℕ → ℕ → ℤ → Fates → RiskLimits → Table → Option ℤ × RiskLimits × Table
  update_daily_pnl_and_nav now today opening delta fates l t =
      let (seen, t1) = put_seen fates.of_total t (add_item (day_key today) delta t) in
      let total = day_total (get_item t1 (day_key today)) in
      let value = pos opening +ℤ total in
      let (kept, t2) = put_seen fates.of_nav t1 (put_item nav_key (nav_row value) t1) in
      if seen
      then (if kept
          then (some total, update_portfolio_value now (above value) l, t2)
          else (none, l, t2))
      else (none, l, t1)

  -- Everything after the reservation of a fill that was not there.
  unfoldable pub count_fill :
      ℕ → ℕ → ℕ → PnlReads → Fates → Fill → Books → Table → Books × Recorded × Table
  count_fill now today opening r fates f b t =
      let (delta, t1) = apply_fill_to_daily_symbol_pnl today f fates.of_symbol t in
      elim delta [
        | none ↦ (b, raised, t1)
        | some d ↦
            let (total, l, t2) = update_daily_pnl_and_nav now today opening d fates b.limits t1 in
            elim total [
              | none ↦ (b, raised, t2)
              | some z ↦
                  let v : LossValidator = record {
                    cached_realized = z;
                    cache_date = some today;
                    fetched_at = now;
                  } in
                  let b' : Books = record { loss = v; limits = l } in
                  elim (get_unrealized_pnl r.position_pages) [
                    | some u ↦ (b', counted d (z +ℤ u), t2)
                    | none ↦ (b', raised, t2)
                  ]
            ]
      ]

  -- A fill that is reserved already is answered with the result of the day.
  unfoldable pub record_fill :
      ℕ → ℕ → ℕ → PnlReads → Fates → Fill → Books → Table → Books × Recorded × Table
  record_fill now today opening r fates f b t =
      let (won, t1) = put_absent (fill_key f.fill_id) fill_row t in
      let (v, total) = get_daily_pnl now today r b.loss in
      let answer =
        if won
        then count_fill now today opening r fates f b t1
        else (record b { loss = v }, repeated total, t1) in
      if f.quantity == 0 || f.price == 0 then (b, raised, t) else elim fates.of_reserve [
        | answered ↦ answer
        | lost_before ↦ (b, raised, t)
        | lost_after ↦ (b, raised, t1)
      ]
