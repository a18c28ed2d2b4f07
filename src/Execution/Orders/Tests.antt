-- ===== src/Execution/Orders/Tests.antt =====
-- order_manager.py over a table that is a function from keys, and its theorems at concrete orders.
use quant_embrace_v.Common.{
  true, ◌≡◌, refl, ◌≢◌, ◌⊎◌, not, Option, none, some, Bool, ◌&&◌, is_some, if◌then◌else◌,
}
use quant_embrace_v.Execution.Orders.Status.{
  OrderStatus, pending, filled, cancelled, is_valid_status_transition,
}
use quant_embrace_v.Execution.Orders.Database.{
  seen, Key, order, signal, key_eq, Item, lock_row, answered, lost_after, Database, item_is,
}
use quant_embrace_v.Execution.Orders.Manager.{
  replay, OrderRequest, Request, Course, applied, refused, accepted, on_row, apply_request,
  pending_row, submit_order, transition_order_status, get_order, previous_status, conditional_write,
}
use quant_embrace_v.Execution.Orders.Lifecycle.{
  Step, moves, here, next, HasReached, status_in, Steps-HasReached,
}
use quant_embrace_v.Execution.Orders.Reservation.{signal_reserved_once}
use quant_embrace_v.Execution.Orders.Transition.{written, transition-Step}

abbrev Rows : Type 0
Rows = Key → Option Item

abbrev put : Key → Item → Rows → Rows
put k i t j = if key_eq k j then some i else t j

abbrev put_if : Bool → Key → Item → Rows → Bool × Rows
put_if b k i t = (b, λ j. if b && key_eq k j then some i else t j)

abbrev memory : Database
memory = record {
  Table = Rows;
  get_item = λ t k. t k;
  put_absent = λ k i t. put_if (not (is_some (t k))) k i t;
  transact_put_absent = λ k i l m t. (
    not (is_some (t k)) && not (is_some (t l)),
    λ j.
        if not (is_some (t k)) && not (is_some (t l))
        then (if key_eq k j then some i else if key_eq l j then some m else t j)
        else t j,
  );
  update_if_status = λ k s f t. put_if (item_is s (t k)) k (f (t k)) t;
  update = λ k f t. put k (f (t k)) t;
  put_absent_reply = λ k i t. refl;
  get_item-put_absent = λ k i t j. refl;
  transact_reply = λ k i l m t. refl;
  get_item-transact = λ k i l m t j apart. refl;
  update_if_reply = λ k s f t. refl;
  get_item-update_if = λ k s f t j. refl;
  get_item-update = λ k f t j. refl;
}

abbrev empty : Rows
empty k = none

abbrev first : OrderRequest
first = record { order_id = 1; signal_id = 70; quantity = 10 }

abbrev second : OrderRequest
second = record { order_id = 2; signal_id = 70; quantity = 10 }

abbrev quiet : Course Rows
quiet = record {
  read_fate = answered;
  meanwhile = λ t. t;
  write_fate = answered;
  before_reread = λ t. t;
  reread_fate = answered;
}

-- Another client has filled the order between the read and the write.
abbrev to_filled : Request
to_filled = record {
  order_id = 1;
  new_status = filled;
  filled_quantity = 10;
  average_price = 250;
  slippage = 0;
  expected_previous_status = none;
  broker_order_id = none;
  broker_state = none;
}

abbrev submitted : Rows
submitted = (submit_order memory first answered empty).1

abbrev overtaken : Course Rows
overtaken = record quiet { meanwhile = λ t. (transition_order_status memory to_filled quiet t).1 }

abbrev cancels : Request
cancels = record to_filled { new_status = cancelled; filled_quantity = 0; average_price = 0 }

cancel_loses_race :
    let (moved, t) = transition_order_status memory cancels overtaken submitted in
    (moved ≡ refused) × (status_in (t (order 1)) ≡ some filled)
unfolding transition_order_status previous_status get_order conditional_write
    is_valid_status_transition submit_order apply_request pending_row replay
cancel_loses_race = (refl, refl)

fill_applies : (transition_order_status memory to_filled quiet submitted).0 ≡ applied
unfolding transition_order_status previous_status get_order conditional_write
    is_valid_status_transition submit_order apply_request pending_row
fill_applies = refl

-- The answer of the first submission is lost, and the order is filled before the second comes.
abbrev orphaned : Rows
orphaned = (submit_order memory first lost_after empty).1

abbrev worked : Rows
worked =
    (seen answered orphaned
      (memory.update_if_status (order 1) pending (on_row 1 (apply_request to_filled)) orphaned)).1

fills : Step memory orphaned worked
unfolding is_valid_status_transition
fills = moves to_filled pending answered refl refl

signal_reserved_once_example :
    ((submit_order memory second answered worked).0 ≢ accepted)
    × (worked (signal 70) ≡ some (lock_row 1))
signal_reserved_once_example =
    signal_reserved_once memory first second lost_after answered empty worked refl refl (λ e. cc)
      refl (next here fills)

Steps-HasReached_example : HasReached pending (status_in (worked (order 1)))
Steps-HasReached_example =
    Steps-HasReached memory orphaned worked 1 pending (next here fills)
      (unfold submit_order pending_row in refl)

abbrev Claim : Type 0
Claim =
    (transition_order_status memory cancels overtaken submitted ≡ (refused, submitted))
    ⊎ ((previous : OrderStatus) × (previous_status memory cancels.expected_previous_status
            cancels.order_id overtaken.read_fate submitted
          ≡ some previous)
        × (is_valid_status_transition previous cancels.new_status ≡ true)
        × Step memory (overtaken.meanwhile submitted)
            (written memory cancels previous overtaken submitted)
        × (((transition_order_status memory cancels overtaken submitted).1
              ≡ written memory cancels previous overtaken submitted)
            ⊎ ((transition_order_status memory cancels overtaken submitted).1
                ≡ overtaken.before_reread (written memory cancels previous overtaken submitted))))

transition-Step_example : Claim
transition-Step_example = transition-Step memory cancels overtaken submitted
