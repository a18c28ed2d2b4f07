-- ===== src/Shared/LocalOutbox.antt =====
-- services/shared/kafka/local_outbox.py. The rows of the SQLite table, as the connection
-- sees them and as they are committed, are lists in the order of their ids, and `next_id` is what
-- AUTOINCREMENT gives next; a message is its number. A commit that raises leaves its transaction open.
pub mod Batch
pub mod Tables
pub mod Account
pub mod Delivery
mod Tests
use quant_embrace_v.Common.{
  ℕ, zero, suc, ◌+◌, Bool, true, false, List, [], ◌∷◌, ◌++◌, leb, ◌==◌, length, if◌then◌else◌,
}

pub record Row : Type 0 where
  pub id : ℕ
  pub message : ℕ

pub record Outbox : Type 0 where
  pub is_open : Bool
  pub max_entries : ℕ
  pub rows : List Row
  pub saved : List Row
  pub next_id : ℕ
  pub overflows : ℕ  -- calls of on_overflow, if there is one

unfoldable pub new : ℕ → Outbox
new limit = record {
  is_open = false;
  max_entries = limit;
  rows = [];
  saved = [];
  next_id = 1;
  overflows = 0;
}

-- A connection sees what is committed, and without a commit a close forgets its changes.
unfoldable pub open_ : Outbox → Outbox
open_ b = record b { is_open = true; rows = b.saved }

unfoldable pub close : Outbox → Outbox
close b = record b { is_open = false; rows = b.saved }

unfoldable pub pending_count : Outbox → ℕ
pending_count b = if b.is_open then length b.rows else 0

unfoldable pub enqueue : ℕ → Outbox → Outbox × Bool
enqueue message b =
    let full = record b { overflows = b.overflows + 1 } in
    let rows = b.rows ++ (record { id = b.next_id; message = message } ∷ []) in
    let added = record b { rows = rows; saved = rows; next_id = b.next_id + 1 } in
    if b.is_open
    then (if leb b.max_entries (length b.rows) then (full, false) else (added, true))
    else (b, false)

-- What becomes of a row in a batch: it is sent and deleted; the send raises with nothing sent; the
-- message is out, and the send or the delete raises; or the commit of the delete raises.
pub data Outcome : Type 0 where
  delivered refused unconfirmed uncommitted : Outcome

unfoldable pub delete : ℕ → List Row → List Row
delete id [] = []
delete id (r ∷ rs) = let rest = delete id rs in if r.id == id then rest else r ∷ rest

unfoldable pub limited : ℕ → List Row → List Row
limited n [] = []
limited zero (r ∷ rs) = []
limited (suc n) (r ∷ rs) = r ∷ limited n rs

-- The loop over the rows that were read: the outbox, what went out, and how many were drained. The
-- process can stop before a row.
unfoldable pub drain_rows : List Row → List Outcome → Outbox → List ℕ → ℕ → Outbox × List ℕ × ℕ
drain_rows [] outcomes b topic drained = (b, topic, drained)
drain_rows (r ∷ rs) [] b topic drained = (b, topic, drained)
drain_rows (r ∷ rs) (delivered ∷ outcomes) b topic drained =
    let left = delete r.id b.rows in
    drain_rows rs outcomes (record b { rows = left; saved = left }) (topic ++ (r.message ∷ []))
      (drained + 1)
drain_rows (r ∷ rs) (refused ∷ outcomes) b topic drained = (b, topic, drained)
drain_rows (r ∷ rs) (unconfirmed ∷ outcomes) b topic drained =
    (b, topic ++ (r.message ∷ []), drained)
drain_rows (r ∷ rs) (uncommitted ∷ outcomes) b topic drained =
    (record b { rows = delete r.id b.rows }, topic ++ (r.message ∷ []), drained)

unfoldable pub drain_batch : List Outcome → Outbox → List ℕ → Outbox × List ℕ × ℕ
drain_batch outcomes b topic =
    let batch = drain_rows (limited 100 b.rows) outcomes b topic 0 in
    if b.is_open then batch else (b, topic, 0)
