-- ===== src/Execution/Orders/Transition.antt =====
-- `_transition_order_status` of order_manager.py while other clients write: what True means, and
-- that all it does to the table is one legal conditional write.
use quant_embrace_v.Common.{
  ℕ, ◌≡◌, refl, ◌⊎◌, inl, inr, true, false, Option, none, some, arith, Bool-cases,
}
use quant_embrace_v.Execution.Orders.Status.{OrderStatus, status_eq, is_valid_status_transition}
use quant_embrace_v.Execution.Orders.Database.{
  order, Item, order_row, lock_row, Fate, answered, lost_before, lost_after, Database, seen,
}
use quant_embrace_v.Execution.Orders.Manager.{
  replay, Request, Course, applied, refused, on_row, apply_request, as_row, parse_status, get_order,
  previous_status, conditional_write, transition_order_status,
}
use quant_embrace_v.Execution.Orders.Lifecycle.{Step, moves}

-- The status that the code reads from a row: a row without one counts as `pending`.
abbrev pub read_status : Option Item → Option OrderStatus
read_status none = none
read_status (some (lock_row _)) = none
read_status (some (order_row r)) = parse_status r.status

status_eq_sound : (a b : OrderStatus) → status_eq a b ≡ true → a ≡ b
status_eq_sound a b h = ground arith

module _ (db : Database) where
  open db use {Table, get_item, update_if_status, update_if_reply, get_item-update_if}

  replay_applied :
      (o : Option Item) (new : OrderStatus)
      → replay db (as_row o) new ≡ applied
      → read_status o ≡ some new
  unfolding replay
  replay_applied none new h = ground arith
  replay_applied (some (lock_row l)) new h = ground arith
  replay_applied (some (order_row r)) new h = ground arith

  get_order_seen :
      (id : ℕ) (fate : Fate) (t : Table)
      → (get_order db id fate t ≡ none) ⊎ (get_order db id fate t ≡ as_row (get_item t (order id)))
  unfolding get_order
  get_order_seen id answered t = inr refl
  get_order_seen id lost_before t = inl refl
  get_order_seen id lost_after t = inl refl

  reread_applied :
      (id : ℕ) (fate : Fate) (t : Table) (new : OrderStatus)
      → replay db (get_order db id fate t) new ≡ applied
      → read_status (get_item t (order id)) ≡ some new
  reread_applied id fate t new h = elim (get_order_seen id fate t) [
    | inl lost ↦ absurd (never (rw lost at h))
    | inr read ↦ replay_applied (get_item t (order id)) new (rw read at h)
  ]
    where
      never : replay db none new ≡ applied → ⊥
      never e = unfold replay in cc

  -- `updated` under the condition, on the row that the condition found.
  written_applied :
      (q : Request) (previous : OrderStatus) (t : Table)
      → (update_if_status (order q.order_id) previous (on_row q.order_id (apply_request q)) t).0
        ≡ true
      → read_status (
          get_item
            (update_if_status (order q.order_id) previous (on_row q.order_id (apply_request q)) t).1
            (order q.order_id))
        ≡ some q.new_status
  unfolding apply_request
  written_applied q previous t h = ground (
    arith,
    update_if_reply (order q.order_id) previous (on_row q.order_id (apply_request q)) t,
    get_item-update_if (order q.order_id) previous (on_row q.order_id (apply_request q)) t
        (order q.order_id),
  )

  conditional_write_applied :
      (q : Request) (previous : OrderStatus) (c : Course Table) (t : Table)
      → (conditional_write db q previous c t).0 ≡ applied
      → read_status (get_item (conditional_write db q previous c t).1 (order q.order_id))
        ≡ some q.new_status
  unfolding conditional_write
  conditional_write_applied q previous c t h =
      let write =
        update_if_status (order q.order_id) previous (on_row q.order_id (apply_request q))
          (c.meanwhile t) in
      ground (
        arith,
        written_applied q previous (c.meanwhile t),
        reread_applied q.order_id c.reread_fate (c.before_reread write.1) q.new_status,
      )

  -- True from `_transition_order_status` means what it says: whatever other clients have written
  -- between its requests, at its end the order's row has the new status (for a request of
  -- `pending`, a row without a status counts).
  pub transition_applied :
      (q : Request) (c : Course Table) (t : Table)
      → (transition_order_status db q c t).0 ≡ applied
      → read_status (get_item (transition_order_status db q c t).1 (order q.order_id))
        ≡ some q.new_status
  unfolding transition_order_status
  transition_applied q c t h =
      go (previous_status db q.expected_previous_status q.order_id c.read_fate t) refl
    where
      go :
          (p : Option OrderStatus)
          → previous_status db q.expected_previous_status q.order_id c.read_fate t ≡ p
          → read_status (get_item (transition_order_status db q c t).1 (order q.order_id))
            ≡ some q.new_status
      go none e = ground arith
      go (some previous) e = ground (arith, conditional_write_applied q previous c t)

  -- The table after the one write: under the condition on the status, the row of the order with the
  -- changes of the request, on the table as the other clients have left it, as far as it arrives.
  abbrev pub written : Request → OrderStatus → Course Table → Table → Table
  written q previous c t =
      (seen c.write_fate (c.meanwhile t) (
        update_if_status (order q.order_id) previous (on_row q.order_id (apply_request q))
          (c.meanwhile t))).1

  conditional_write-Step :
      (q : Request) (previous : OrderStatus) (c : Course Table) (t : Table)
      → is_valid_status_transition previous q.new_status ≡ true
      → Step db (c.meanwhile t) (written q previous c t)
        × (((conditional_write db q previous c t).1 ≡ written q previous c t)
            ⊎ ((conditional_write db q previous c t).1 ≡ c.before_reread (written q previous c t)))
  unfolding conditional_write
  conditional_write-Step q previous c t v = (moves q previous c.write_fate v refl, ground arith)

  -- The two ways through the guards of the method.
  transition_runs :
      (q : Request) (c : Course Table) (t : Table)
      → (transition_order_status db q c t ≡ (refused, t))
        ⊎ ((previous : OrderStatus) × (previous_status db q.expected_previous_status q.order_id
                c.read_fate t
              ≡ some previous)
            × (is_valid_status_transition previous q.new_status ≡ true)
            × (transition_order_status db q c t ≡ conditional_write db q previous c t))
  unfolding transition_order_status
  transition_runs q c t =
      guards (previous_status db q.expected_previous_status q.order_id c.read_fate t) refl
    where
      guards :
          (p : Option OrderStatus)
          → previous_status db q.expected_previous_status q.order_id c.read_fate t ≡ p
          → (transition_order_status db q c t ≡ (refused, t))
            ⊎ ((previous : OrderStatus) × (previous_status db q.expected_previous_status q.order_id
                    c.read_fate t
                  ≡ some previous)
                × (is_valid_status_transition previous q.new_status ≡ true)
                × (transition_order_status db q c t ≡ conditional_write db q previous c t))
      guards none e = inl (ground arith)
      guards (some previous) e =
          elim (Bool-cases (is_valid_status_transition previous q.new_status)) [
            | inl legal ↦ inr (previous, e, legal, ground arith)
            | inr illegal ↦ inl (ground arith)
          ]

  -- All that a transition itself does to the table is at most one write, and that is the update of the
  -- order's own row under the condition that its status is the previous one: the expected one of the
  -- request, or the one that the method has read, from which the new status is legal. The write is on
  -- the table as the other clients have left it, and is a step of the status machine; where the method
  -- reads the row again, what others write before that comes on top.
  pub transition-Step :
      (q : Request) (c : Course Table) (t : Table)
      → (transition_order_status db q c t ≡ (refused, t))
        ⊎ ((previous : OrderStatus) × (previous_status db q.expected_previous_status q.order_id
                c.read_fate t
              ≡ some previous)
            × (is_valid_status_transition previous q.new_status ≡ true)
            × Step db (c.meanwhile t) (written q previous c t)
            × (((transition_order_status db q c t).1 ≡ written q previous c t)
                ⊎ ((transition_order_status db q c t).1
                    ≡ c.before_reread (written q previous c t))))
  transition-Step q c t = elim (transition_runs q c t) [
    | inl stopped ↦ inl stopped
    | inr (previous, read, legal, runs) ↦
        let (write, result) = conditional_write-Step q previous c t legal in
        inr (previous, read, legal, write, rw runs result)
  ]

  -- An illegal transition of a row that the method could read is refused, and the table is as it was.
  pub illegal_refused :
      (q : Request) (c : Course Table) (t : Table) (previous : OrderStatus)
      → q.expected_previous_status ≡ none
      → c.read_fate ≡ answered
      → read_status (get_item t (order q.order_id)) ≡ some previous
      → is_valid_status_transition previous q.new_status ≡ false
      → transition_order_status db q c t ≡ (refused, t)
  unfolding transition_order_status previous_status get_order
  illegal_refused q c t previous fresh seen_answer at illegal = ground arith
