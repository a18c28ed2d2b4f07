-- ===== src/Execution/Orders/Reservation.antt =====
-- `submit_order` of order_manager.py as a reservation of the signal.
use quant_embrace_v.Common.{ℕ, ◌≡◌, refl, ◌≢◌, ◌⊎◌, true, none, some, arith, is_some}
use quant_embrace_v.Execution.Orders.Database.{
  Key, order, signal, key_eq, order_row, lock_row, Fate, answered, lost_before, Database,
}
use quant_embrace_v.Execution.Orders.Manager.{
  OrderRequest, accepted, duplicate, on_row, apply_request, submit_order, submit_child_order,
  pending_row, link_child, fail_protection, link_protective_child, mark_protection_failed,
}
use quant_embrace_v.Execution.Orders.Lifecycle.{
  Step, submits, submits_child, moves, links, protects, Steps, here, next,
}

module _ (db : Database) where
  open db use {
    Table, get_item, transact_reply, put_absent_reply, get_item-put_absent, get_item-transact,
    get_item-update_if, get_item-update,
  }

  -- Every branch of an answered `submit_order`: it is accepted exactly when neither the order nor
  -- the signal is in the table, and then the pending row and the lock of the signal are there and
  -- nothing else has changed; otherwise it is a duplicate and nothing has changed.
  pub submit_order_cases :
      (o : OrderRequest) (t : Table) (j : Key)
      → let (reply, t') = submit_order db o answered t in
        (get_item t (order o.order_id) ≡ none)
          × (get_item t (signal o.signal_id) ≡ none)
          × (reply ≡ accepted)
          × (get_item t' (order o.order_id) ≡ some (order_row (pending_row o none)))
          × (get_item t' (signal o.signal_id) ≡ some (lock_row o.order_id))
          × ((key_eq (order o.order_id) j ≡ true)
              ⊎ (key_eq (signal o.signal_id) j ≡ true)
              ⊎ (get_item t' j ≡ get_item t j))
        ⊎ ((is_some (get_item t (order o.order_id)) ≡ true)
            ⊎ (is_some (get_item t (signal o.signal_id)) ≡ true))
          × (reply ≡ duplicate)
          × (get_item t' j ≡ get_item t j)
  unfolding submit_order
  submit_order_cases o t j =
      let row = order_row (pending_row o none) in
      let lock = lock_row o.order_id in
      let law = get_item-transact (order o.order_id) row (signal o.signal_id) lock t in
      ground (
        arith,
        transact_reply (order o.order_id) row (signal o.signal_id) lock t,
        law (order o.order_id) refl,
        law (signal o.signal_id) refl,
        law j refl,
      )

  lock_kept_once :
      (t u : Table) (s o : ℕ)
      → Step db t u
      → get_item t (signal s) ≡ some (lock_row o)
      → get_item u (signal s) ≡ some (lock_row o)
  unfolding submit_order submit_child_order link_protective_child mark_protection_failed
  lock_kept_once t u s o (submits r fate e) h = ground (
    arith,
    get_item-transact (order r.order_id) (order_row (pending_row r none)) (signal r.signal_id)
        (lock_row r.order_id) t (signal s) refl,
  )
  lock_kept_once t u s o (submits_child r parent fate e) h = ground (
    arith,
    get_item-put_absent (order r.order_id) (order_row (pending_row r (some parent))) t (signal s),
  )
  lock_kept_once t u s o (moves q previous fate v e) h = ground (
    arith,
    get_item-update_if (order q.order_id) previous (on_row q.order_id (apply_request q)) t
        (signal s),
  )
  lock_kept_once t u s o (links parent child quantity fate e) h = ground (
    arith,
    get_item-update (order parent) (on_row parent (link_child child quantity)) t (signal s),
  )
  lock_kept_once t u s o (protects parent fate e) h =
      ground (arith, get_item-update (order parent) (on_row parent fail_protection) t (signal s))

  lock_kept :
      (t u : Table) (s o : ℕ)
      → Steps db t u
      → get_item t (signal s) ≡ some (lock_row o)
      → get_item u (signal s) ≡ some (lock_row o)
  lock_kept t u s o here h = h
  lock_kept t u s o (next {u = v} r w) h = lock_kept_once v u s o w (lock_kept t v s o r h)

  locked_refuses :
      (o : OrderRequest) (owner : ℕ) (fate : Fate) (u : Table)
      → get_item u (signal o.signal_id) ≡ some (lock_row owner)
      → (submit_order db o fate u).0 ≢ accepted
  unfolding submit_order
  locked_refuses o owner fate u h = ground (
    arith,
    transact_reply (order o.order_id) (order_row (pending_row o none)) (signal o.signal_id)
        (lock_row o.order_id) u,
  )

  -- A signal is reserved at most once: after a `submit_order` of it that wrote, whether or not its
  -- answer came back, no later one for the same signal is accepted, whatever has been written in
  -- between by any clients; and the lock still names the first order.
  pub signal_reserved_once :
      (first second : OrderRequest) (fate later : Fate) (t u : Table)
      → get_item t (order first.order_id) ≡ none
      → get_item t (signal first.signal_id) ≡ none
      → fate ≢ lost_before
      → first.signal_id ≡ second.signal_id
      → Steps db (submit_order db first fate t).1 u
      → ((submit_order db second later u).0 ≢ accepted)
        × (get_item u (signal second.signal_id) ≡ some (lock_row first.order_id))
  signal_reserved_once first second fate later t u free_order free_signal wrote same history =
      let locked : get_item u (signal second.signal_id) ≡ some (lock_row first.order_id) =
        lock_kept (submit_order db first fate t).1 u second.signal_id first.order_id history
          taken in
      (locked_refuses second first.order_id later u locked, locked)
    where
      taken :
          get_item (submit_order db first fate t).1 (signal second.signal_id)
          ≡ some (lock_row first.order_id)
      taken =
          unfold submit_order in
          ground (
            arith,
            get_item-transact (order first.order_id) (order_row (pending_row first none))
                (signal first.signal_id) (lock_row first.order_id) t (signal second.signal_id) refl,
          )
