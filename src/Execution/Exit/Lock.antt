-- ===== src/Execution/Exit/Lock.antt =====
-- What the lock of exit_order_router.py gives: which live orders can be out for one position.
use quant_embrace_v.Common.{
  ℕ, ◌+◌, ◌≤◌, ◌≡◌, ◌≢◌, ◌↔◌, ◌⊎◌, Bool, true, false, ◌&&◌, Option, none, some, List, [], ◌∷◌, ◌==◌,
  is_some, arith, inl, inr, refl, sym, ap, ◌∙◌, Option-cases,
}
use quant_embrace_v.Execution.Orders.Database.{Fate, answered, lost_after}
use quant_embrace_v.Execution.Exit.Models.{ExitOrderRequest, ExitId}
use quant_embrace_v.Execution.Exit.Positions.{Row, PositionTable, not_flat, row_of}
use quant_embrace_v.Execution.Exit.Engine.{write_trailing_stop, set_trailing}
use quant_embrace_v.Execution.Exit.Router.{
  Router, is_live, BrokerReply, placed, timed_out, refused, lost, Course, route, route_live,
  acquire_exit_lock, release_exit_lock, may_lock, lock, unlock, holds_lock, same_exit,
}

never : {A : Type 0} → true ≡ false → A
never h = cc

abbrev pub is_locked : Option Row → Bool
is_locked r = is_some (row_of r).exit_order_id

abbrev pub as_number : Bool → ℕ
as_number true = 1
as_number false = 0

-- An order that is in the market, or may be.
abbrev pub is_at_large : Option BrokerReply → Bool
is_at_large none = false
is_at_large (some placed) = true
is_at_large (some timed_out) = true
is_at_large (some refused) = false
is_at_large (some lost) = true

-- An order that reached the broker although its placement raised.
abbrev pub is_unsure : Option BrokerReply → Bool
is_unsure none = false
is_unsure (some placed) = false
is_unsure (some timed_out) = false
is_unsure (some refused) = false
is_unsure (some lost) = true

-- The row as it was, without the trigger of an exit.
abbrev pub untriggered : Row → Row
untriggered r = record r { exit_trigger = none }

module _ (db : PositionTable) where
  open db use {Table, get_item, update_if_reply, get_item-update_if}

  acquire_cases :
      (q : ExitOrderRequest) (fate : Fate) (t : Table) (symbol : ℕ)
      → q.is_kill_switch ≡ false
      → let (acquired, t') = acquire_exit_lock db q fate t in
        ((is_locked (get_item t' symbol) ≡ true) ⊎ (get_item t' symbol ≡ get_item t symbol))
        × ((acquired ≡ false)
            ⊎ (q.symbol ≢ symbol) × (get_item t' symbol ≡ get_item t symbol)
            ⊎ (q.symbol ≡ symbol)
              × (is_locked (get_item t symbol) ≡ false)
              × (get_item t' symbol ≡ some (lock q (row_of (get_item t symbol)))))
  unfolding acquire_exit_lock
  acquire_cases q fate t symbol plain = ground (
    arith,
    plain,
    update_if_reply q.symbol (may_lock q) (lock q) t,
    get_item-update_if q.symbol (may_lock q) (lock q) t symbol,
  )

  release_keeps :
      (q : ExitOrderRequest) (fate : Fate) (t : Table) (symbol : ℕ)
      → q.symbol ≢ symbol
      → get_item (release_exit_lock db q fate t) symbol ≡ get_item t symbol
  unfolding release_exit_lock
  release_keeps q fate t symbol other =
      ground (arith, other, get_item-update_if q.symbol (holds_lock q.exit_id) unlock t symbol)

  -- Orders at large for a symbol, and the lock before, are within the lock after, but for an order
  -- whose placement raised.
  route_locks :
      (r : Router) (q : ExitOrderRequest) (c : Course Table) (t : Table) (symbol : ℕ)
      → is_live r.mode ≡ true
      → q.is_kill_switch ≡ false
      → let d = route db r q c t in
        as_number (is_at_large d.sent && (q.symbol == symbol))
          + as_number (is_locked (get_item t symbol))
        ≤ as_number (is_locked (get_item d.table symbol))
          + as_number (is_unsure d.sent && (q.symbol == symbol))
  unfolding route route_live
  route_locks r q c t symbol in_live plain = ground (
    arith,
    in_live,
    acquire_cases q c.lock_fate t symbol plain,
    release_keeps q c.release_fate (acquire_exit_lock db q c.lock_fate t).1 symbol,
  )

  -- A locked row lets no order out, and stays locked.
  route_blocked :
      (r : Router) (q : ExitOrderRequest) (c : Course Table) (t : Table) (symbol : ℕ)
      → is_live r.mode ≡ true
      → q.is_kill_switch ≡ false
      → is_locked (get_item t symbol) ≡ true
      → let d = route db r q c t in
        ((is_at_large d.sent && (q.symbol == symbol)) ≡ false)
        × (is_locked (get_item d.table symbol) ≡ true)
  unfolding route route_live
  route_blocked r q c t symbol in_live plain locked = ground (
    arith,
    in_live,
    locked,
    acquire_cases q c.lock_fate t symbol plain,
    release_keeps q c.release_fate (acquire_exit_lock db q c.lock_fate t).1 symbol,
  )

  stop_write_keeps :
      (moved stop : ℕ) (fate : Fate) (t : Table) (symbol : ℕ)
      → is_locked (get_item (write_trailing_stop db moved stop fate t) symbol)
        ≡ is_locked (get_item t symbol)
  unfolding write_trailing_stop
  stop_write_keeps moved stop fate t symbol =
      ground (arith, get_item-update_if moved not_flat (set_trailing stop) t symbol)

  -- A live exit that is not the kill switch's, or the write of a trailing stop.
  pub data Step : Type 0 where
    exits :
        (r : Router) (q : ExitOrderRequest) (c : Course Table)
        → is_live r.mode ≡ true
        → q.is_kill_switch ≡ false
        → Step
    moves_stop : (symbol stop : ℕ) (fate : Fate) → Step

  unfoldable pub orders_at_large : ℕ → List Step → Table → ℕ
  orders_at_large symbol [] t = 0
  orders_at_large symbol (exits r q c _ _ ∷ steps) t =
      let d = route db r q c t in
      as_number (is_at_large d.sent && (q.symbol == symbol)) + orders_at_large symbol steps d.table
  orders_at_large symbol (moves_stop moved stop fate ∷ steps) t =
      orders_at_large symbol steps (write_trailing_stop db moved stop fate t)

  -- The placements among the steps that raise although the order has reached the broker.
  unfoldable pub unsure_orders : ℕ → List Step → Table → ℕ
  unsure_orders symbol [] t = 0
  unsure_orders symbol (exits r q c _ _ ∷ steps) t =
      let d = route db r q c t in
      as_number (is_unsure d.sent && (q.symbol == symbol)) + unsure_orders symbol steps d.table
  unsure_orders symbol (moves_stop moved stop fate ∷ steps) t =
      unsure_orders symbol steps (write_trailing_stop db moved stop fate t)

  locked_sends_nothing :
      (symbol : ℕ) (steps : List Step) (t : Table)
      → is_locked (get_item t symbol) ≡ true
      → orders_at_large symbol steps t ≡ 0
  unfolding orders_at_large
  locked_sends_nothing symbol [] t locked = refl
  locked_sends_nothing symbol (exits r q c in_live plain ∷ steps) t locked =
      let (unsent, still) = route_blocked r q c t symbol in_live plain locked in
      ground (arith, unsent, locked_sends_nothing symbol steps (route db r q c t).table still)
  locked_sends_nothing symbol (moves_stop moved stop fate ∷ steps) t locked =
      locked_sends_nothing symbol steps (write_trailing_stop db moved stop fate t)
        (stop_write_keeps moved stop fate t symbol ∙ locked)

  -- In any sequence of live exits, for this position and others, by any triggers but the kill
  -- switch, and of writes of trailing stops, whatever the table and the broker answer: at most one exit
  -- order of a position is in the market or may be, and one more for each placement that raised after
  -- its order had reached the broker.
  pub one_exit_at_large :
      (symbol : ℕ) (steps : List Step) (t : Table)
      → orders_at_large symbol steps t + as_number (is_locked (get_item t symbol))
        ≤ 1 + unsure_orders symbol steps t
  unfolding orders_at_large unsure_orders
  one_exit_at_large symbol [] t = ground arith
  one_exit_at_large symbol (exits r q c in_live plain ∷ steps) t = ground (
    arith,
    route_locks r q c t symbol in_live plain,
    one_exit_at_large symbol steps (route db r q c t).table,
  )
  one_exit_at_large symbol (moves_stop moved stop fate ∷ steps) t = ground (
    arith,
    stop_write_keeps moved stop fate t symbol,
    one_exit_at_large symbol steps (write_trailing_stop db moved stop fate t),
  )

  -- A live exit reports success exactly if the broker has placed its order, and an order goes out
  -- only with live trading enabled, with a broker, and for a row whose lock it could take.
  pub live_order_needs_lock :
      (r : Router) (q : ExitOrderRequest) (c : Course Table) (t : Table)
      → is_live r.mode ≡ true
      → let d = route db r q c t in
        ((d.result ≡ true) ↔ (d.sent ≡ some placed))
        × ((d.sent ≡ none)
            ⊎ (r.live_enabled ≡ true)
              × (r.has_broker ≡ true)
              × (may_lock q (row_of (get_item t q.symbol)) ≡ true))
  unfolding route route_live acquire_exit_lock
  live_order_needs_lock r q c t in_live =
      ground (arith, in_live, update_if_reply q.symbol (may_lock q) (lock q) t)

  acquires :
      (q : ExitOrderRequest) (t : Table)
      → may_lock q (row_of (get_item t q.symbol)) ≡ true
      → ((acquire_exit_lock db q answered t).0 ≡ true)
        × (get_item (acquire_exit_lock db q answered t).1 q.symbol
            ≡ some (lock q (row_of (get_item t q.symbol))))
  unfolding acquire_exit_lock
  acquires q t free = ground (
    arith,
    update_if_reply q.symbol (may_lock q) (lock q) t,
    get_item-update_if q.symbol (may_lock q) (lock q) t q.symbol,
  )

  same_exit_refl : (id : ExitId) → same_exit id id ≡ true
  same_exit_refl id = ground arith

  releases :
      (q : ExitOrderRequest) (t : Table) (row : Row)
      → get_item t q.symbol ≡ some (lock q row)
      → get_item (release_exit_lock db q answered t) q.symbol ≡ some (unlock row)
  unfolding release_exit_lock
  releases q t row held = ground (
    arith,
    held,
    same_exit_refl q.exit_id,
    get_item-update_if q.symbol (holds_lock q.exit_id) unlock t q.symbol,
  )

  raised_route :
      (r : Router) (q : ExitOrderRequest) (c : Course Table) (t : Table)
      → (is_live r.mode ≡ true) × (r.live_enabled ≡ true) × (r.has_broker ≡ true)
      → may_lock q (row_of (get_item t q.symbol)) ≡ true
      → (c.lock_fate ≡ answered) × (c.release_fate ≡ answered)
      → (c.broker ≡ refused) ⊎ (c.broker ≡ lost)
      → let d = route db r q c t in
        (d.sent ≡ some c.broker)
        × (d.result ≡ false)
        × (get_item d.table q.symbol ≡ some (unlock (row_of (get_item t q.symbol))))
  unfolding route route_live
  raised_route r q c t ready free course raises =
      let (got, held) = acquires q t free in
      ground (
        arith,
        ready,
        course,
        raises,
        got,
        releases q (acquire_exit_lock db q answered t).1 (row_of (get_item t q.symbol)) held,
      )

  placed_route :
      (r : Router) (q : ExitOrderRequest) (c : Course Table) (t : Table)
      → (is_live r.mode ≡ true) × (r.live_enabled ≡ true) × (r.has_broker ≡ true)
      → may_lock q (row_of (get_item t q.symbol)) ≡ true
      → (c.lock_fate ≡ answered) × (c.broker ≡ placed)
      → ((route db r q c t).result ≡ true) × ((route db r q c t).sent ≡ some placed)
  unfolding route route_live
  placed_route r q c t ready free course =
      let (got, _) = acquires q t free in ground (arith, ready, course, got)

  free_row :
      (q : ExitOrderRequest) (r : Row)
      → q.is_kill_switch ≡ false
      → may_lock q r ≡ true
      → unlock r ≡ untriggered r
  free_row q r plain free = elim (Option-cases r.exit_order_id) [
    | inl e ↦ ap (λ o. record r { exit_order_id = o; exit_trigger = none }) (sym e)
    | inr (id, e) ↦ never (ground (arith, plain, free, e))
  ]

  -- A live exit, not of the kill switch, whose placement raises while the table answers leaves the row
  -- as it was but for the trigger, and the same exit can be routed again and placed. So the position
  -- is not blocked; but where the first order had reached the broker, two orders of one exit are in
  -- the market.
  pub raised_exit_retries :
      (r : Router) (q : ExitOrderRequest) (c again : Course Table) (t : Table)
      → (is_live r.mode ≡ true) × (r.live_enabled ≡ true) × (r.has_broker ≡ true)
      → q.is_kill_switch ≡ false
      → may_lock q (row_of (get_item t q.symbol)) ≡ true
      → (c.lock_fate ≡ answered) × (c.release_fate ≡ answered)
      → (c.broker ≡ refused) ⊎ (c.broker ≡ lost)
      → (again.lock_fate ≡ answered) × (again.broker ≡ placed)
      → let d = route db r q c t in
        let d' = route db r q again d.table in
        (d.result ≡ false)
        × (get_item d.table q.symbol ≡ some (untriggered (row_of (get_item t q.symbol))))
        × (d'.result ≡ true)
        × (as_number (is_at_large d.sent) + as_number (is_at_large d'.sent)
            ≡ 1 + as_number (is_unsure (some c.broker)))
  raised_exit_retries r q c again t ready plain free course raises course' =
      let t' = (route db r q c t).table in
      let (sent, refused_so, row) = raised_route r q c t ready free course raises in
      let free' : may_lock q (row_of (get_item t' q.symbol)) ≡ true = ground (arith, row, free) in
      let (done, out) = placed_route r q again t' ready free' course' in
      (
        refused_so,
        row ∙ ap (λ x. some x) (free_row q (row_of (get_item t q.symbol)) plain free),
        done,
        ground (arith, sent, out, raises),
      )

  lost_lock :
      (r : Router) (q : ExitOrderRequest) (c : Course Table) (t : Table)
      → (is_live r.mode ≡ true) × (r.live_enabled ≡ true)
      → may_lock q (row_of (get_item t q.symbol)) ≡ true
      → c.lock_fate ≡ lost_after
      → let d = route db r q c t in (d.sent ≡ none) × (is_locked (get_item d.table q.symbol) ≡ true)
  unfolding route acquire_exit_lock
  lost_lock r q c t ready free unseen =
      ground
        (arith, ready, free, unseen, get_item-update_if q.symbol (may_lock q) (lock q) t q.symbol)

  -- If the answer to the lock's write is lost although the write was made, no exit order goes out
  -- and the row stays locked: no later live exit of the position places an order, until a fill or
  -- the kill switch comes.
  pub lost_answer_blocks :
      (r : Router) (q : ExitOrderRequest) (c : Course Table) (t : Table) (steps : List Step)
      → (is_live r.mode ≡ true) × (r.live_enabled ≡ true)
      → may_lock q (row_of (get_item t q.symbol)) ≡ true
      → c.lock_fate ≡ lost_after
      → ((route db r q c t).sent ≡ none)
        × (orders_at_large q.symbol steps (route db r q c t).table ≡ 0)
  lost_answer_blocks r q c t steps ready free unseen =
      let (unsent, locked) = lost_lock r q c t ready free unseen in
      (unsent, locked_sends_nothing q.symbol steps (route db r q c t).table locked)
