-- ===== src/Execution/Orders/Manager.antt =====
-- services/execution_engine/orders/order_manager.py: the operations on the orders table. A method
-- takes the `Fate` of each of its requests; a `Course` adds what other clients do to the table
-- between one request and the next. `broker_order_state` and `outbox_status`, which are always
-- written together, are one `BrokerState`. The methods of the second part are those with no client.
use quant_embrace_v.Common.{ℕ, ◌+◌, Bool, true, false, Option, none, some, if◌then◌else◌}
use quant_embrace_v.Execution.Orders.Status.{
  OrderStatus, pending, ack_unknown, status_eq, is_valid_status_transition,
}
use quant_embrace_v.Execution.Orders.Database.{
  order, signal, RawStatus, known, missing, garbled, BrokerState, reserved, submitted, Row, Item,
  order_row, lock_row, Fate, answered, lost_before, lost_after, Database, seen,
}

-- The fields of `OrderRequest` that the table's rows are known by.
pub record OrderRequest : Type 0 where
  pub order_id : ℕ
  pub signal_id : ℕ
  pub quantity : ℕ

-- The item of `submit_order`, and of `submit_child_order` with its parent.
unfoldable pub pending_row : OrderRequest → Option ℕ → Row
pending_row o parent = record {
  order_id = o.order_id;
  signal_id = o.signal_id;
  quantity = o.quantity;
  status = known pending;
  filled_quantity = 0;
  avg_fill_price = 0;
  slippage = 0;
  broker_order_id = none;
  broker_state = reserved;
  parent_order_id = parent;
  protective_child = none;
  protected_quantity = 0;
  protection_failed = false;
}

-- The row that an update of a missing key starts from.
abbrev pub blank_row : ℕ → Row
blank_row id = record (pending_row (record { order_id = id; signal_id = 0; quantity = 0 }) none) {
  status = missing;
}

abbrev pub on_row : ℕ → (Row → Row) → Option Item → Item
on_row id f none = order_row (f (blank_row id))
on_row id f (some (order_row r)) = order_row (f r)
on_row id f (some (lock_row o)) = lock_row o

abbrev pub as_row : Option Item → Option Row
as_row (some (order_row r)) = some r
as_row (some (lock_row _)) = none
as_row none = none

pub data Submitted : Type 0 where
  accepted duplicate failed : Submitted

abbrev pub submitted_as : Option Bool → Submitted
submitted_as (some true) = accepted
submitted_as (some false) = duplicate
submitted_as none = failed

-- The arguments of `_transition_order_status`.
pub record Request : Type 0 where
  pub order_id : ℕ
  pub new_status : OrderStatus
  pub filled_quantity : ℕ
  pub average_price : ℕ
  pub slippage : ℕ
  pub expected_previous_status : Option OrderStatus
  pub broker_order_id : Option ℕ
  pub broker_state : Option BrokerState

pub record Course (T : Type 0) : Type 0 where
  pub read_fate : Fate
  pub meanwhile : T → T
  pub write_fate : Fate
  pub before_reread : T → T
  pub reread_fate : Fate

-- True, False, or the ValueError of a row whose status is no member.
pub data Moved : Type 0 where
  applied refused unreadable : Moved

abbrev pub or_keep {ℓ} : {A : Type ℓ} → Option A → A → A
or_keep none old = old
or_keep (some new) old = new

abbrev pub or_keep_some {ℓ} : {A : Type ℓ} → Option A → Option A → Option A
or_keep_some none old = old
or_keep_some (some new) old = some new

-- The update expression of `_transition_order_status`.
unfoldable pub apply_request : Request → Row → Row
apply_request q r = record r {
  status = known q.new_status;
  filled_quantity = q.filled_quantity;
  avg_fill_price = q.average_price;
  slippage = q.slippage;
  broker_order_id = or_keep_some q.broker_order_id r.broker_order_id;
  broker_state = or_keep q.broker_state r.broker_state;
}

-- The update expressions of `link_protective_child` and `mark_protection_failed`.
abbrev pub link_child : ℕ → ℕ → Row → Row
link_child child quantity r = record r {
  protective_child = some child;
  protected_quantity = r.protected_quantity + quantity;
}

abbrev pub fail_protection : Row → Row
fail_protection r = record r { protection_failed = true }

-- `OrderStatus(item.get("order_status", …PENDING))`; none is the ValueError.
abbrev pub parse_status : RawStatus → Option OrderStatus
parse_status (known s) = some s
parse_status missing = some pending
parse_status garbled = none

module _ (db : Database) where
  open db use {Table, get_item, put_absent, transact_put_absent, update_if_status, update}

  unfoldable pub submit_order : OrderRequest → Fate → Table → Submitted × Table
  submit_order o fate t =
      let (reply, t') = seen fate t (
        transact_put_absent (order o.order_id) (order_row (pending_row o none)) (signal o.signal_id)
          (lock_row o.order_id) t) in
      (submitted_as reply, t')

  unfoldable pub submit_child_order : OrderRequest → ℕ → Fate → Table → Submitted × Table
  submit_child_order o parent fate t =
      let (reply, t') =
        seen fate t (put_absent (order o.order_id) (order_row (pending_row o (some parent))) t) in
      (submitted_as reply, t')

  unfoldable pub get_order : ℕ → Fate → Table → Option Row
  get_order id answered t = as_row (get_item t (order id))
  get_order id lost_before t = none
  get_order id lost_after t = none

  status_of_row : Option Row → Option OrderStatus
  status_of_row none = none
  status_of_row (some r) = parse_status r.status

  -- The status that the write will be conditional on; none where the method returns False.
  unfoldable pub previous_status : Option OrderStatus → ℕ → Fate → Table → Option OrderStatus
  unfolding status_of_row
  previous_status (some s) id fate t = some s
  previous_status none id fate t = status_of_row (get_order id fate t)

  -- The branch of ConditionalCheckFailedException.
  unfoldable pub replay : Option Row → OrderStatus → Moved
  replay none new = refused
  replay (some r) new = elim (parse_status r.status) [
    | none ↦ unreadable
    | some s ↦ if status_eq s new then applied else refused
  ]

  unfoldable pub conditional_write : Request → OrderStatus → Course Table → Table → Moved × Table
  conditional_write q previous c t =
      let t₁ = c.meanwhile t in
      let (reply, t₂) =
        seen c.write_fate t₁
          (update_if_status (order q.order_id) previous (on_row q.order_id (apply_request q)) t₁) in
      elim reply [
        | none ↦ (refused, t₂)
        | some b ↦ if b then (applied, t₂) else (
          replay (get_order q.order_id c.reread_fate (c.before_reread t₂)) q.new_status,
          c.before_reread t₂,
        )
      ]

  -- `_transition_order_status`.
  unfoldable pub transition_order_status : Request → Course Table → Table → Moved × Table
  transition_order_status q c t =
      elim (previous_status q.expected_previous_status q.order_id c.read_fate t) [
        | none ↦ (refused, t)
        | some previous ↦
            if is_valid_status_transition previous q.new_status
            then conditional_write q previous c t
            else (refused, t)
      ]

  unfoldable pub update_status :
      ℕ → OrderStatus → OrderStatus → ℕ → ℕ → ℕ → ℕ → Course Table → Table → Moved × Table
  update_status id previous new filled price slip broker_id = transition_order_status (record {
    order_id = id;
    new_status = new;
    filled_quantity = filled;
    average_price = price;
    slippage = slip;
    expected_previous_status = some previous;
    broker_order_id = some broker_id;
    broker_state = none;
  })

  unfoldable pub update_order_status :
      ℕ → OrderStatus → ℕ → ℕ → Course Table → Table → Moved × Table
  update_order_status id new filled price = transition_order_status (record {
    order_id = id;
    new_status = new;
    filled_quantity = filled;
    average_price = price;
    slippage = 0;
    expected_previous_status = none;
    broker_order_id = none;
    broker_state = none;
  })

  -- `record_order`: what is not applied is raised as a RuntimeError.
  unfoldable pub record_order : ℕ → OrderStatus → ℕ → ℕ → ℕ → Course Table → Table → Moved × Table
  record_order id new filled price broker_id = transition_order_status (record {
    order_id = id;
    new_status = new;
    filled_quantity = filled;
    average_price = price;
    slippage = 0;
    expected_previous_status = none;
    broker_order_id = some broker_id;
    broker_state = some submitted;
  })

  unfoldable pub mark_order_ack_unknown : ℕ → Course Table → Table → Moved × Table
  mark_order_ack_unknown id = transition_order_status (record {
    order_id = id;
    new_status = ack_unknown;
    filled_quantity = 0;
    average_price = 0;
    slippage = 0;
    expected_previous_status = none;
    broker_order_id = none;
    broker_state = some BrokerState.ack_unknown;
  })

  -- The unconditional updates of the parent's row; an error of the service is the caller's.
  unfoldable pub link_protective_child : ℕ → ℕ → ℕ → Fate → Table → Table
  link_protective_child parent child quantity fate t =
      (seen fate t (true, update (order parent) (on_row parent (link_child child quantity)) t)).1

  unfoldable pub mark_protection_failed : ℕ → Fate → Table → Table
  mark_protection_failed parent fate t =
      (seen fate t (true, update (order parent) (on_row parent fail_protection) t)).1

-- `_transition_order_status` where `_dynamo is None`: nothing is stored.
unfoldable pub transition_without_client : Option OrderStatus → OrderStatus → Moved
transition_without_client expected new =
    if is_valid_status_transition (or_keep expected pending) new then applied else refused
