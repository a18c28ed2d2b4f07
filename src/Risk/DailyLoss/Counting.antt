-- ===== src/Risk/DailyLoss/Counting.antt =====
-- loss_validator.py: record_fill of a fill that is not reserved, where every write is answered, and where
-- one is not.
use quant_embrace_v.Common.{
  ℕ, ◌≡◌, refl, ap, ◌∙◌, true, false, Option, some, List, arith, ltb, ℤ, pos, ◌+ℤ◌, if◌then◌else◌,
}
use quant_embrace_v.Execution.Orders.Database.{answered, lost_before}
use quant_embrace_v.Risk.DailyLoss.{get_unrealized_pnl}
use quant_embrace_v.Risk.DailyLoss.Fills.{
  SymbolRow, Key, fill_key, symbol_key, day_key, nav_key, key_eq, Item, fill_row, symbol_row,
  day_row, nav_row, added, day_total, PnlTable, fill_symbol, opened, Books, raised, counted,
  apply_fill_to_daily_symbol_pnl, update_daily_pnl_and_nav, count_fill, record_fill,
}
use quant_embrace_v.Risk.DailyLoss.Accounting.{
  Call, do_call, run, Ignored, is_reserved, same_number, counted_once,
}

module _ (db : PnlTable) where
  open db use {
    Table, get_item, put_item, put_absent, add_item, get_item-put_item, put_absent_reply,
    get_item-put_absent, get_item-add_item,
  }

  first_reserved :
      (id : ℕ) (t : Table) (k : Key)
      → is_reserved db id t ≡ false
      → ((put_absent (fill_key id) fill_row t).0 ≡ true)
        × (get_item (put_absent (fill_key id) fill_row t).1 k
            ≡ (if key_eq (fill_key id) k then some fill_row else get_item t k))
  first_reserved id t k h = ground (
    arith,
    put_absent_reply (fill_key id) fill_row t,
    get_item-put_absent (fill_key id) fill_row t k,
  )

  -- A fill whose reservation is answered and whose next write is lost on the way is in no total: the
  -- call raises, and the reservation is the only row that it has changed; and any later call with the
  -- same id, whatever calls come between, changes no row and counts nothing.
  pub interrupted_fill_lost :
      (c again : Call) (between : List Call) (b b'' : Books) (t : Table)
      → ltb 0 c.fill.quantity ≡ true
      → ltb 0 c.fill.price ≡ true
      → c.fates.of_reserve ≡ answered
      → c.fates.of_symbol ≡ lost_before
      → is_reserved db c.fill.fill_id t ≡ false
      → again.fill.fill_id ≡ c.fill.fill_id
      → let (b', answer, t') = do_call db c b t in
        (answer ≡ raised)
        × ((k : Key)
            → get_item t' k
              ≡ (if key_eq (fill_key c.fill.fill_id) k then some fill_row else get_item t k))
        × Ignored db (run db between b' t').1 (do_call db again b'' (run db between b' t').1)
  unfolding record_fill count_fill apply_fill_to_daily_symbol_pnl
  interrupted_fill_lost c again between b b'' t hq hp h1 h2 fresh same = (
    ground (arith, first_reserved c.fill.fill_id t nav_key fresh),
    λ k. ground (arith, first_reserved c.fill.fill_id t k fresh),
    counted_once db c again between b b'' t hq hp (rw h1 refl) same,
  )

  -- The table after the four writes of a fill.
  abbrev pub row_of : Call → Table → SymbolRow × ℤ
  row_of c t =
      fill_symbol c.fill.direction c.fill.quantity c.fill.price
        (opened (get_item t (symbol_key c.today c.fill.symbol)))

  abbrev reserved_table : Call → Table → Table
  reserved_table c t = (put_absent (fill_key c.fill.fill_id) fill_row t).1

  abbrev settled_table : Call → Table → Table
  settled_table c t =
      let t1 = reserved_table c t in
      add_item (day_key c.today) (row_of c t1).1
        (put_item (symbol_key c.today c.fill.symbol) (symbol_row (row_of c t1).0) t1)

  abbrev final_table : Call → Table → Table
  final_table c t =
      let t3 = settled_table c t in
      put_item nav_key (nav_row (pos c.opening +ℤ day_total (get_item t3 (day_key c.today)))) t3

  abbrev pub AllAnswered : Call → Type 0
  AllAnswered c =
      (c.fates.of_reserve ≡ answered)
      × (c.fates.of_symbol ≡ answered)
      × (c.fates.of_total ≡ answered)
      × (c.fates.of_nav ≡ answered)

  call_counts :
      (c : Call) (b : Books) (t : Table) (u : ℤ)
      → ltb 0 c.fill.quantity ≡ true
      → ltb 0 c.fill.price ≡ true
      → AllAnswered c
      → (put_absent (fill_key c.fill.fill_id) fill_row t).0 ≡ true
      → get_unrealized_pnl c.reads.position_pages ≡ some u
      → let total = day_total (get_item (settled_table c t) (day_key c.today)) in
        ((do_call db c b t).1 ≡ counted (row_of c (reserved_table c t)).1 (total +ℤ u))
        × ((do_call db c b t).2 ≡ final_table c t)
  unfolding record_fill count_fill apply_fill_to_daily_symbol_pnl update_daily_pnl_and_nav
  call_counts c b t u hq hp (f1, f2, f3, f4) fresh read =
      (ground (arith, f1, f2, f3, f4, fresh, read), ground (arith, f1, f2, f3, f4, fresh, read))

  reserved_read :
      (c : Call) (t : Table) (k : Key)
      → key_eq (fill_key c.fill.fill_id) k ≡ false
      → get_item (reserved_table c t) k ≡ get_item t k
  reserved_read c t k h =
      ground (arith, h, get_item-put_absent (fill_key c.fill.fill_id) fill_row t k)

  same_row : (c : Call) (t : Table) → row_of c (reserved_table c t) ≡ row_of c t
  same_row c t =
      ap (λ (i : Option Item). fill_symbol c.fill.direction c.fill.quantity c.fill.price (opened i))
        (reserved_read c t (symbol_key c.today c.fill.symbol) refl)

  settled_day :
      (c : Call) (t : Table)
      → get_item (settled_table c t) (day_key c.today)
        ≡ some (day_row (added (row_of c t).1 (get_item t (day_key c.today))))
  settled_day c t =
      let symbol = symbol_key c.today c.fill.symbol in
      let t1 = reserved_table c t in
      let i = symbol_row (row_of c t1).0 in
      let before : get_item (put_item symbol i t1) (day_key c.today)
          ≡ get_item t (day_key c.today) =
        get_item-put_item symbol i t1 (day_key c.today)
        ∙ reserved_read c t (day_key c.today) refl in
      get_item-add_item c.today (row_of c t1).1 (put_item symbol i t1) (day_key c.today)
      ∙ rw (same_number c.today, before, same_row c t) refl

  settled_symbol :
      (c : Call) (t : Table)
      → get_item (settled_table c t) (symbol_key c.today c.fill.symbol)
        ≡ some (symbol_row (row_of c t).0)
  settled_symbol c t =
      let symbol = symbol_key c.today c.fill.symbol in
      let t1 = reserved_table c t in
      let i = symbol_row (row_of c t1).0 in
      get_item-add_item c.today (row_of c t1).1 (put_item symbol i t1) symbol
      ∙ get_item-put_item symbol i t1 symbol
      ∙ rw (same_number c.today, same_number c.fill.symbol, same_row c t) refl

  -- A fill that is not reserved, with every write answered and the positions read, is counted in full:
  -- the row of its symbol is the one that the arithmetic of the fill gives, the total of the day grows
  -- by what the fill realizes, the NAV is the opening one with that total, and the answer has the
  -- realized part and the result of the day.
  pub counted_in_full :
      (c : Call) (b : Books) (t : Table) (u : ℤ)
      → ltb 0 c.fill.quantity ≡ true
      → ltb 0 c.fill.price ≡ true
      → AllAnswered c
      → is_reserved db c.fill.fill_id t ≡ false
      → get_unrealized_pnl c.reads.position_pages ≡ some u
      → let (b', answer, t') = do_call db c b t in
        let (r, d) = row_of c t in
        let total = added d (get_item t (day_key c.today)) in
        (answer ≡ counted d (day_total (some (day_row total)) +ℤ u))
        × (get_item t' (symbol_key c.today c.fill.symbol) ≡ some (symbol_row r))
        × (get_item t' (day_key c.today) ≡ some (day_row total))
        × (get_item t' nav_key ≡ some (nav_row (pos c.opening +ℤ day_total (some (day_row total)))))
  counted_in_full c b t u hq hp seen fresh read =
      let (answered_so, ends) =
        call_counts c b t u hq hp seen (first_reserved c.fill.fill_id t nav_key fresh).0 read in
      let t3 = settled_table c t in
      let i = nav_row (pos c.opening +ℤ day_total (get_item t3 (day_key c.today))) in
      (
        answered_so ∙ rw (settled_day c t, same_row c t) refl,
        rw ends (
            get_item-put_item nav_key i t3 (symbol_key c.today c.fill.symbol) ∙ settled_symbol c t),
        rw ends (get_item-put_item nav_key i t3 (day_key c.today) ∙ settled_day c t),
        rw ends (get_item-put_item nav_key i t3 nav_key ∙ rw (settled_day c t) refl),
      )
