-- ===== src/Execution/Orders/Database.antt =====
-- What order_manager.py relies on of DynamoDB, which is not in the repository: reads by key and
-- writes under a condition, each atomic, as the service documents them. `Fate` says what a caller
-- sees of a request: its answer, or an error, after which the write may or may not stand.
use quant_embrace_v.Common.{
  ℕ, Bool, false, not, Option, none, some, ◌&&◌, ◌≡◌, ◌==◌, if◌then◌else◌, is_some,
}
use quant_embrace_v.Execution.Orders.Status.{OrderStatus, status_eq}

-- `PK=ORDER#{order_id}, SK=META` and `PK=SIGNAL#{signal_id}, SK=LOCK`.
pub data Key : Type 0 where
  order : ℕ → Key
  signal : ℕ → Key

abbrev pub key_eq : Key → Key → Bool
key_eq (order a) (order b) = a == b
key_eq (signal a) (signal b) = a == b
key_eq (order a) (signal b) = false
key_eq (signal a) (order b) = false

-- The attribute `order_status` of a row: a member of the enum, no attribute, or another text.
pub data RawStatus : Type 0 where
  known : OrderStatus → RawStatus
  missing : RawStatus
  garbled : RawStatus

-- `broker_order_state` and `outbox_status`.
pub data BrokerState : Type 0 where
  reserved submitted ack_unknown : BrokerState

pub record Row : Type 0 where
  pub order_id : ℕ
  pub signal_id : ℕ
  pub quantity : ℕ
  pub status : RawStatus
  pub filled_quantity : ℕ
  pub avg_fill_price : ℕ
  pub slippage : ℕ
  pub broker_order_id : Option ℕ
  pub broker_state : BrokerState
  pub parent_order_id : Option ℕ
  pub protective_child : Option ℕ
  pub protected_quantity : ℕ
  pub protection_failed : Bool

pub data Item : Type 0 where
  order_row : Row → Item
  lock_row : ℕ → Item

-- `order_status = :prev`
abbrev pub raw_is : OrderStatus → RawStatus → Bool
raw_is s (known t) = status_eq s t
raw_is s missing = false
raw_is s garbled = false

abbrev pub item_is : OrderStatus → Option Item → Bool
item_is s (some (order_row r)) = raw_is s r.status
item_is s (some (lock_row _)) = false
item_is s none = false

pub data Fate : Type 0 where
  answered lost_before lost_after : Fate

-- The reply to a conditional write is whether its condition held; then it has been made.
pub record Database : Type 1 where
  pub Table : Type 0
  pub get_item : Table → Key → Option Item
  pub put_absent : Key → Item → Table → Bool × Table
  pub transact_put_absent : Key → Item → Key → Item → Table → Bool × Table
  pub update_if_status : Key → OrderStatus → (Option Item → Item) → Table → Bool × Table
  pub update : Key → (Option Item → Item) → Table → Table
  pub put_absent_reply :
      (k : Key) (i : Item) (t : Table) → (put_absent k i t).0 ≡ not (is_some (get_item t k))
  pub get_item-put_absent :
      (k : Key) (i : Item) (t : Table) (j : Key)
      → get_item (put_absent k i t).1 j
        ≡ (if not (is_some (get_item t k)) && key_eq k j then some i else get_item t j)
  pub transact_reply :
      (k : Key) (i : Item) (l : Key) (m : Item) (t : Table)
      → (transact_put_absent k i l m t).0
        ≡ (not (is_some (get_item t k)) && not (is_some (get_item t l)))
  pub get_item-transact :
      (k : Key) (i : Item) (l : Key) (m : Item) (t : Table) (j : Key)
      → key_eq k l ≡ false
      → get_item (transact_put_absent k i l m t).1 j ≡ (
          if not (is_some (get_item t k)) && not (is_some (get_item t l))
          then (if key_eq k j then some i else if key_eq l j then some m else get_item t j)
          else get_item t j)
  pub update_if_reply :
      (k : Key) (s : OrderStatus) (f : Option Item → Item) (t : Table)
      → (update_if_status k s f t).0 ≡ item_is s (get_item t k)
  pub get_item-update_if :
      (k : Key) (s : OrderStatus) (f : Option Item → Item) (t : Table) (j : Key)
      → get_item (update_if_status k s f t).1 j
        ≡ (if item_is s (get_item t k) && key_eq k j then some (f (get_item t k)) else get_item t j)
  pub get_item-update :
      (k : Key) (f : Option Item → Item) (t : Table) (j : Key)
      → get_item (update k f t) j ≡ (if key_eq k j then some (f (get_item t k)) else get_item t j)

-- What the caller sees of a write: the reply, or none if an error was raised.
abbrev pub seen : {T : Type 0} → Fate → T → Bool × T → Option Bool × T
seen answered before (done, after) = (some done, after)
seen lost_before before (done, after) = (none, before)
seen lost_after before (done, after) = (none, after)
