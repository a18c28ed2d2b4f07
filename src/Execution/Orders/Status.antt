-- ===== src/Execution/Orders/Status.antt =====
-- services/execution_engine/orders: the enum `OrderStatus` of order.py, and the table
-- `_VALID_TRANSITIONS` with `_is_valid_status_transition` of order_manager.py.
use quant_embrace_v.Common.{ℕ, Bool, false, List, [], ◌∷◌, ◌||◌, ◌==◌}

pub data OrderStatus : Type 0 where
  pending ack_unknown placed partially_filled filled cancelled rejected flattening : OrderStatus

-- The position of a member in its enum, by which members are compared.
abbrev pub status_index : OrderStatus → ℕ
status_index pending = 0
status_index ack_unknown = 1
status_index placed = 2
status_index partially_filled = 3
status_index filled = 4
status_index cancelled = 5
status_index rejected = 6
status_index flattening = 7

abbrev pub status_eq : OrderStatus → OrderStatus → Bool
status_eq a b = status_index a == status_index b

-- `flattening` has no entry, and `.get(…, set())` gives the empty set.
unfoldable pub valid_transitions : OrderStatus → List OrderStatus
valid_transitions pending =
    ack_unknown ∷ placed ∷ partially_filled ∷ filled ∷ cancelled ∷ rejected ∷ []
valid_transitions ack_unknown = placed ∷ partially_filled ∷ filled ∷ cancelled ∷ rejected ∷ []
valid_transitions placed = filled ∷ partially_filled ∷ cancelled ∷ rejected ∷ []
valid_transitions partially_filled = filled ∷ cancelled ∷ []
valid_transitions filled = []
valid_transitions cancelled = []
valid_transitions rejected = []
valid_transitions flattening = []

abbrev pub member : OrderStatus → List OrderStatus → Bool
member s [] = false
member s (x ∷ xs) = status_eq s x || member s xs

unfoldable pub is_valid_status_transition : OrderStatus → OrderStatus → Bool
unfolding valid_transitions
is_valid_status_transition previous new =
    status_eq previous new || member new (valid_transitions previous)
