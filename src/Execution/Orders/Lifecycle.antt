-- ===== src/Execution/Orders/Lifecycle.antt =====
-- The lifecycle of an order under order_manager.py: the transition table, and what it makes of an
-- order's row under any interleaving of the writes of any number of clients.
use quant_embrace_v.Common.{ℕ, ◌≤◌, ◌<◌, ◌≡◌, refl, ◌⊎◌, ◌↔◌, inl, true, Option, none, some, arith}
use quant_embrace_v.Execution.Orders.Status.{
  OrderStatus, pending, ack_unknown, placed, partially_filled, filled, cancelled, rejected,
  flattening, is_valid_status_transition,
}
use quant_embrace_v.Execution.Orders.Database.{
  order, signal, known, missing, garbled, Item, order_row, lock_row, Fate, Database, seen,
}
use quant_embrace_v.Execution.Orders.Manager.{
  fail_protection, link_child, OrderRequest, Request, on_row, apply_request, submit_order,
  submit_child_order, link_protective_child, mark_protection_failed, pending_row,
}

-- How far an order has come.
abbrev pub rank : OrderStatus → ℕ
rank pending = 0
rank ack_unknown = 1
rank placed = 2
rank partially_filled = 3
rank filled = 4
rank cancelled = 4
rank rejected = 4
rank flattening = 5

-- A legal transition repeats the status or takes the order strictly further; so from `filled`,
-- `cancelled` and `rejected` nothing but a repetition is legal.
pub is_valid-rank :
    (previous new : OrderStatus)
    → is_valid_status_transition previous new ≡ true
    → (previous ≡ new) ⊎ (rank previous < rank new) × (rank new ≤ 4)
unfolding is_valid_status_transition
is_valid-rank previous new h = ground arith

-- `flattening` is an island: the table leads neither into it nor out of it, though the enum's
-- documentation lists FILLED -> FLATTENING and FLATTENING -> FILLED / CANCELLED.
pub flattening_isolated :
    (s : OrderStatus)
    → ((is_valid_status_transition s flattening ≡ true) ↔ (s ≡ flattening))
      × ((is_valid_status_transition flattening s ≡ true) ↔ (s ≡ flattening))
unfolding is_valid_status_transition
flattening_isolated s = ground arith

-- The status of an order's row, where it is a member of the enum.
abbrev pub status_in : Option Item → Option OrderStatus
status_in none = none
status_in (some (lock_row _)) = none
status_in (some (order_row r)) = elim r.status [
  | known s ↦ some s
  | missing ↦ none
  | garbled ↦ none
]

abbrev Moves : OrderStatus → Option OrderStatus → Type 0
Moves s none = ⊥
Moves s (some s') = is_valid_status_transition s s' ≡ true

-- The status is there, and is the same or strictly further.
abbrev pub HasReached : OrderStatus → Option OrderStatus → Type 0
HasReached s none = ⊥
HasReached s (some s') = (s ≡ s') ⊎ (rank s < rank s') × (rank s' ≤ 4)

is_valid_refl : (s : OrderStatus) → is_valid_status_transition s s ≡ true
unfolding is_valid_status_transition
is_valid_refl s = ground arith

module _ (db : Database) where
  open db use {
    Table, get_item, put_absent, transact_put_absent, update_if_status, update, get_item-put_absent,
    get_item-transact, get_item-update_if, get_item-update,
  }

  -- One write of one client. A transition is the conditional write alone, with the previous status
  -- that the client has read at some earlier time and found the transition legal from.
  pub data Step (t u : Table) : Type 0 where
    submits : (o : OrderRequest) (fate : Fate) → u ≡ (submit_order db o fate t).1 → Step t u
    submits_child :
        (o : OrderRequest) (parent : ℕ) (fate : Fate)
        → u ≡ (submit_child_order db o parent fate t).1
        → Step t u
    moves :
        (q : Request) (previous : OrderStatus) (fate : Fate)
        → is_valid_status_transition previous q.new_status ≡ true
        → u
          ≡ (seen fate t (
              update_if_status
                (order q.order_id)
                previous
                (on_row q.order_id (apply_request q))
                t)).1
        → Step t u
    links :
        (parent child quantity : ℕ) (fate : Fate)
        → u ≡ link_protective_child db parent child quantity fate t
        → Step t u
    protects : (parent : ℕ) (fate : Fate) → u ≡ mark_protection_failed db parent fate t → Step t u

  pub data Steps (t : Table) : Table → Type 0 where
    here : Steps t t
    next : {u v : Table} → Steps t u → Step u v → Steps t v

  Step-Moves :
      (t u : Table) (id : ℕ) (s : OrderStatus)
      → Step t u
      → status_in (get_item t (order id)) ≡ some s
      → Moves s (status_in (get_item u (order id)))
  unfolding submit_order submit_child_order link_protective_child mark_protection_failed
      apply_request
  Step-Moves t u id s (submits o fate e) h = ground (
    arith,
    e,
    is_valid_refl s,
    get_item-transact (order o.order_id) (order_row (pending_row o none)) (signal o.signal_id)
        (lock_row o.order_id) t (order id) refl,
  )
  Step-Moves t u id s (submits_child o parent fate e) h = ground (
    arith,
    is_valid_refl s,
    get_item-put_absent (order o.order_id) (order_row (pending_row o (some parent))) t (order id),
  )
  Step-Moves t u id s (moves q previous fate v e) h = ground (
    arith,
    is_valid_refl s,
    get_item-update_if (order q.order_id) previous (on_row q.order_id (apply_request q)) t
        (order id),
  )
  Step-Moves t u id s (links parent child quantity fate e) h = ground (
    arith,
    is_valid_refl s,
    get_item-update (order parent) (on_row parent (link_child child quantity)) t (order id),
  )
  Step-Moves t u id s (protects parent fate e) h = ground (
    arith,
    is_valid_refl s,
    get_item-update (order parent) (on_row parent fail_protection) t (order id),
  )

  Moves-HasReached : (s : OrderStatus) (o : Option OrderStatus) → Moves s o → HasReached s o
  Moves-HasReached s none m = absurd m
  Moves-HasReached s (some s') m = ground (arith, is_valid-rank s s' m)

  Moves-compose :
      (s : OrderStatus) (o o' : Option OrderStatus)
      → HasReached s o
      → ((s' : OrderStatus) → o ≡ some s' → Moves s' o')
      → HasReached s o'
  Moves-compose s none o' reached moved = absurd reached
  Moves-compose s (some s') none reached moved = absurd (moved s' refl)
  Moves-compose s (some s') (some s'') reached moved =
      ground (arith, is_valid-rank s' s'' (moved s' refl))

  -- Whatever submissions, transitions and protection updates of the order manager any number of
  -- clients make, in whatever order, and whether or not they see the answers: an order's row keeps
  -- a status, and the status is the same or strictly further. Nothing of these takes an order out
  -- of `filled`, `cancelled` or `rejected`.
  pub Steps-HasReached :
      (t u : Table) (id : ℕ) (s : OrderStatus)
      → Steps t u
      → status_in (get_item t (order id)) ≡ some s
      → HasReached s (status_in (get_item u (order id)))
  Steps-HasReached t u id s here h = rw h (inl refl)
  Steps-HasReached t u id s (next {u = v} r w) h =
      Moves-compose s (status_in (get_item v (order id))) (status_in (get_item u (order id)))
        (Steps-HasReached t v id s r h) (λ s' e. Step-Moves v u id s' w e)
