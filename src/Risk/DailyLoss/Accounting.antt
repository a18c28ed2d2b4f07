-- ===== src/Risk/DailyLoss/Accounting.antt =====
-- loss_validator.py: record_fill over whole runs, with replays, errors and other fills between.
use quant_embrace_v.Common.{
  ℕ, ◌≡◌, ◌≢◌, inl, inr, refl, Bool, true, false, Option, none, some, List, [], ◌∷◌, arith, ltb,
  ◌==◌, ℤ, pos, ◌+ℤ◌, is_some, Option-cases,
}
use quant_embrace_v.Execution.Orders.Database.{Fate, answered, lost_before, lost_after}
use quant_embrace_v.Risk.DailyLoss.{PnlReads, get_daily_pnl}
use quant_embrace_v.Execution.SafeActions.RiskState.{put_seen}
use quant_embrace_v.Risk.Limits.{RiskLimits}
use quant_embrace_v.Risk.DailyLoss.Fills.{
  Key, fill_key, symbol_key, day_key, nav_key, Item, fill_row, nav_row, day_total, PnlTable, Fill,
  Fates, Books, Recorded, repeated, counted, apply_fill_to_daily_symbol_pnl,
  update_daily_pnl_and_nav, count_fill, record_fill,
}

pub record Call : Type 0 where
  pub now : ℕ
  pub today : ℕ
  pub opening : ℕ
  pub reads : PnlReads
  pub fates : Fates
  pub fill : Fill

pub same_number : (a : ℕ) → (a == a) ≡ true
same_number a = ground arith

module _ (db : PnlTable) where
  open db use {
    Table, get_item, put_item, put_absent, add_item, get_item-put_item, put_absent_reply,
    get_item-put_absent, get_item-add_item,
  }

  abbrev pub do_call : Call → Books → Table → Books × Recorded × Table
  do_call c b t = record_fill db c.now c.today c.opening c.reads c.fates c.fill b t

  unfoldable pub run : List Call → Books → Table → Books × Table
  run [] b t = (b, t)
  run (c ∷ cs) b t = let (b', answer, t') = do_call c b t in run cs b' t'

  abbrev pub is_reserved : ℕ → Table → Bool
  is_reserved id t = is_some (get_item t (fill_key id))

  apply_keeps :
      (today : ℕ) (f : Fill) (fate : Fate) (t : Table) (id : ℕ)
      → get_item (apply_fill_to_daily_symbol_pnl db today f fate t).1 (fill_key id)
        ≡ get_item t (fill_key id)
  unfolding apply_fill_to_daily_symbol_pnl
  apply_keeps today f answered t id =
      get_item-put_item (symbol_key today f.symbol) _ t (fill_key id)
  apply_keeps today f lost_before t id = refl
  apply_keeps today f lost_after t id =
      get_item-put_item (symbol_key today f.symbol) _ t (fill_key id)

  added_keeps :
      (today : ℕ) (delta : ℤ) (t : Table) (id : ℕ)
      → get_item (add_item (day_key today) delta t) (fill_key id) ≡ get_item t (fill_key id)
  added_keeps today delta t id = get_item-add_item today delta t (fill_key id)

  nav_keeps :
      (i : Item) (t : Table) (id : ℕ)
      → get_item (put_item nav_key i t) (fill_key id) ≡ get_item t (fill_key id)
  nav_keeps i t id = get_item-put_item nav_key i t (fill_key id)

  seen_keeps :
      (fate : Fate) (t after : Table) (k : Key)
      → get_item after k ≡ get_item t k
      → get_item (put_seen fate t after).1 k ≡ get_item t k
  seen_keeps answered t after k h = h
  seen_keeps lost_before t after k h = refl
  seen_keeps lost_after t after k h = h

  update_keeps :
      (now today opening : ℕ) (delta : ℤ) (fates : Fates) (l : RiskLimits) (t : Table) (id : ℕ)
      → get_item (update_daily_pnl_and_nav db now today opening delta fates l t).2 (fill_key id)
        ≡ get_item t (fill_key id)
  unfolding update_daily_pnl_and_nav
  update_keeps now today opening delta fates l t id =
      let t1 = (put_seen fates.of_total t (add_item (day_key today) delta t)).1 in
      let i = nav_row (pos opening +ℤ day_total (get_item t1 (day_key today))) in
      ground (
        arith,
        seen_keeps fates.of_total t (add_item (day_key today) delta t) (fill_key id)
            (added_keeps today delta t id),
        seen_keeps fates.of_nav t1 (put_item nav_key i t1) (fill_key id) (nav_keeps i t1 id),
      )

  count_keeps :
      (now today opening : ℕ) (r : PnlReads) (fates : Fates) (f : Fill) (b : Books) (t : Table)
      (id : ℕ)
      → get_item (count_fill db now today opening r fates f b t).2 (fill_key id)
        ≡ get_item t (fill_key id)
  unfolding count_fill
  count_keeps now today opening r fates f b t id =
      let (delta, t1) = apply_fill_to_daily_symbol_pnl db today f fates.of_symbol t in
      elim (Option-cases delta) [
        | inl e ↦ ground (arith, e, apply_keeps today f fates.of_symbol t id)
        | inr (d, e) ↦ ground (
          arith,
          e,
          apply_keeps today f fates.of_symbol t id,
          update_keeps now today opening d fates b.limits t1 id,
        )
      ]

  reserve_keeps :
      (k id : ℕ) (t : Table)
      → is_reserved id t ≡ true
      → is_reserved id (put_absent (fill_key k) fill_row t).1 ≡ true
  reserve_keeps k id t h = ground (arith, get_item-put_absent (fill_key k) fill_row t (fill_key id))

  reserve_holds : (k : ℕ) (t : Table) → is_reserved k (put_absent (fill_key k) fill_row t).1 ≡ true
  reserve_holds k t =
      ground (arith, same_number k, get_item-put_absent (fill_key k) fill_row t (fill_key k))

  call_keeps :
      (c : Call) (b : Books) (t : Table) (id : ℕ)
      → is_reserved id t ≡ true
      → is_reserved id (do_call c b t).2 ≡ true
  unfolding record_fill
  call_keeps c b t id h =
      let t1 = (put_absent (fill_key c.fill.fill_id) fill_row t).1 in
      ground (
        arith,
        reserve_keeps c.fill.fill_id id t h,
        count_keeps c.now c.today c.opening c.reads c.fates c.fill b t1 id,
      )

  run_keeps :
      (cs : List Call) (b : Books) (t : Table) (id : ℕ)
      → is_reserved id t ≡ true
      → is_reserved id (run cs b t).1 ≡ true
  unfolding run
  run_keeps [] b t id h = h
  run_keeps (c ∷ cs) b t id h =
      run_keeps cs (do_call c b t).0 (do_call c b t).2 id (call_keeps c b t id h)

  -- The request reaches the table, whether or not the caller sees the answer.
  abbrev pub arrives : Fate → Bool
  arrives answered = true
  arrives lost_before = false
  arrives lost_after = true

  call_reserves :
      (c : Call) (b : Books) (t : Table)
      → ltb 0 c.fill.quantity ≡ true
      → ltb 0 c.fill.price ≡ true
      → arrives c.fates.of_reserve ≡ true
      → is_reserved c.fill.fill_id (do_call c b t).2 ≡ true
  unfolding record_fill
  call_reserves c b t hq hp h =
      let t1 = (put_absent (fill_key c.fill.fill_id) fill_row t).1 in
      ground (
        arith,
        reserve_holds c.fill.fill_id t,
        count_keeps c.now c.today c.opening c.reads c.fates c.fill b t1 c.fill.fill_id,
      )

  -- What is not there stays as it is, and no result is counted.
  abbrev pub Ignored : Table → Books × Recorded × Table → Type 0
  Ignored t (b, answer, t') =
      ((k : Key) → get_item t' k ≡ get_item t k) × ((d z : ℤ) → answer ≢ counted d z)

  reserved_again :
      (id : ℕ) (t : Table) (k : Key)
      → is_reserved id t ≡ true
      → ((put_absent (fill_key id) fill_row t).0 ≡ false)
        × (get_item (put_absent (fill_key id) fill_row t).1 k ≡ get_item t k)
  reserved_again id t k h = ground (
    arith,
    put_absent_reply (fill_key id) fill_row t,
    get_item-put_absent (fill_key id) fill_row t k,
  )

  repeated_uncounted : (total : Option ℤ) (d z : ℤ) → repeated total ≢ counted d z
  repeated_uncounted none d z = ground arith
  repeated_uncounted (some x) d z = ground arith

  replay-Ignored :
      (c : Call) (b : Books) (t : Table)
      → is_reserved c.fill.fill_id t ≡ true
      → Ignored t (do_call c b t)
  unfolding record_fill
  replay-Ignored c b t h = (
    λ k. ground (arith, reserved_again c.fill.fill_id t k h),
    λ d z. ground (
      arith,
      reserved_again c.fill.fill_id t nav_key h,
      repeated_uncounted (get_daily_pnl c.now c.today c.reads b.loss).1 d z,
    ),
  )

  -- A fill is counted at most once: after a call whose reservation reached the table, whatever became
  -- of the rest of it, and after any other calls, a call with the same fill id changes no row of the
  -- table and counts nothing.
  pub counted_once :
      (c c' : Call) (cs : List Call) (b b' : Books) (t : Table)
      → ltb 0 c.fill.quantity ≡ true
      → ltb 0 c.fill.price ≡ true
      → arrives c.fates.of_reserve ≡ true
      → c'.fill.fill_id ≡ c.fill.fill_id
      → let later = (run cs (do_call c b t).0 (do_call c b t).2).1 in
        Ignored later (do_call c' b' later)
  counted_once c c' cs b b' t hq hp h same =
      let later = (run cs (do_call c b t).0 (do_call c b t).2).1 in
      replay-Ignored c' b' later (
        rw same (
          run_keeps cs (do_call c b t).0 (do_call c b t).2 c.fill.fill_id
            (call_reserves c b t hq hp h)))
