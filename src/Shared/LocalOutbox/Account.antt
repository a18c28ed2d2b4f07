-- ===== src/Shared/LocalOutbox/Account.antt =====
-- local_outbox.py: one event, and what it leaves of the accepted messages.
use quant_embrace_v.Common.{
  ℕ, ◌+◌, ◌≤◌, ◌≡◌, inl, inr, refl, sym, ap, ◌∙◌, subst, true, false, Bool-cases, List, [], ◌∷◌,
  ◌++◌, arith, leb, length, length-append, if◌then◌else◌,
}
use quant_embrace_v.Shared.LocalOutbox.{
  Row, Outbox, new, open_, close, enqueue, Outcome, limited, drain_batch,
}
use quant_embrace_v.Shared.LocalOutbox.Batch.{
  IsOrdered, confirmed, removed, kept, stored, sent, messages, doubts, beyond, IsWithin,
  append_assoc, drain_rows_lem, IsWithin-append, nothing-IsWithin, confirmed-IsWithin,
  removed-IsWithin, removed-kept, stored_cases, length-sent, limited-beyond,
}
use quant_embrace_v.Shared.LocalOutbox.Tables.{
  IsTable, kept-IsTable, stored-IsTable, snoc-IsOrdered,
}

pub data Event : Type 0 where
  opened closed : Event
  enqueued : ℕ → Event
  drained : List Outcome → Event

-- The outbox, what Kafka has, and what `enqueue` answered True for.
pub record World : Type 0 where
  pub box : Outbox
  pub topic : List ℕ
  pub accepted : List ℕ

abbrev pub fresh : ℕ → World
fresh limit = record { box = new limit; topic = []; accepted = [] }

unfoldable pub happen : Event → World → World
happen opened w = record w { box = open_ w.box }
happen closed w = record w { box = close w.box }
happen (enqueued message) w =
    let (box, taken) = enqueue message w.box in
    record w { box = box; accepted = if taken then w.accepted ++ (message ∷ []) else w.accepted }
happen (drained os) w =
    let (box, topic, count) = drain_batch os w.box w.topic in record w { box = box; topic = topic }

-- A table that holds the accepted messages but for those at the head, which are out, in their order;
-- of all that is out, at most `n` messages are there once more.
abbrev pub Accounts : List ℕ → List ℕ → ℕ → List Row → Type 0
Accounts accepted topic n rows =
    (gone : List ℕ) × (gone ++ messages rows ≡ accepted)
    × IsWithin gone topic
    × (length topic ≤ length gone + n)

-- A batch that takes `piece` off a table, and sends `out`.
batch-Accounts :
    (accepted topic piece out : List ℕ) (n d : ℕ) (rows rows' : List Row)
    → piece ++ messages rows' ≡ messages rows
    → IsWithin piece out
    → length out ≤ length piece + d
    → Accounts accepted topic n rows
    → Accounts accepted (topic ++ out) (n + d) rows'
batch-Accounts accepted topic piece out n d rows rows' split within few
      (gone, order, before, count) =
    (
      gone ++ piece,
      append_assoc gone piece (messages rows') ∙ ap (λ l. gone ++ l) split ∙ order,
      IsWithin-append before within,
      ground (arith, few, count, length-append topic out, length-append gone piece),
    )

-- What holds of every world that is reached with so many doubtful outcomes.
abbrev pub IsSound : ℕ → ℕ → World → Type 0
IsSound limit n w =
    Accounts w.accepted w.topic n w.box.rows
    × Accounts w.accepted w.topic n w.box.saved
    × IsTable limit w.box.next_id w.box.rows
    × IsTable limit w.box.next_id w.box.saved
    × (w.box.max_entries ≡ limit)

messages-append : (xs ys : List Row) → messages (xs ++ ys) ≡ messages xs ++ messages ys
messages-append [] ys = refl
messages-append (x ∷ xs) ys = ap (λ l. x.message ∷ l) (messages-append xs ys)

insert-Accounts :
    (accepted topic : List ℕ) (n : ℕ) (rows : List Row) (r : Row)
    → Accounts accepted topic n rows
    → Accounts (accepted ++ (r.message ∷ [])) topic n (rows ++ (r ∷ []))
insert-Accounts accepted topic n rows r (gone, order, within, few) = (
  gone,
  ap (λ l. gone ++ l) (messages-append rows (r ∷ []))
      ∙ sym (append_assoc gone (messages rows) (r.message ∷ []))
      ∙ ap (λ l. l ++ (r.message ∷ [])) order,
  within,
  few,
)

pub enqueued-IsSound :
    (limit n message : ℕ) (w : World)
    → IsSound limit n w
    → IsSound limit n (happen (enqueued message) w)
unfolding happen enqueue
enqueued-IsSound limit n message w h = elim (Bool-cases w.box.is_open) [
  | inr shut ↦ rw shut h
  | inl ready ↦ elim (Bool-cases (leb w.box.max_entries (length w.box.rows))) [
    | inl full ↦ rw (ready, full) h
    | inr room ↦
        let (view, committed, table, table', same) = h in
        let row : Row = record { id = w.box.next_id; message = message } in
        let view' = insert-Accounts w.accepted w.topic n w.box.rows row view in
        let table'' : IsTable limit (w.box.next_id + 1) (w.box.rows ++ (row ∷ [])) = (
          ground (arith, room, same, length-append w.box.rows (row ∷ [])),
          snoc-IsOrdered w.box.next_id message w.box.rows table.1,
        ) in
        rw (ready, room) (view', view', table'', table'', same)
  ]
]

-- The world after a drain of the open outbox, with the rows that it reads and the others.
unfoldable pub drained_world : List Row → List Row → List Outcome → World → World
drained_world rs rest os w = record w {
  box = record w.box { rows = kept rs os ++ rest; saved = stored rs rest os w.box.saved };
  topic = w.topic ++ sent rs os;
}

saved-Accounts :
    (n : ℕ) (rs rest : List Row) (os : List Outcome) (w : World)
    → w.box.rows ≡ rs ++ rest
    → Accounts w.accepted w.topic n w.box.rows
    → Accounts w.accepted w.topic n w.box.saved
    → Accounts w.accepted (w.topic ++ sent rs os) (n + doubts os) (stored rs rest os w.box.saved)
saved-Accounts n rs rest os w split view committed =
    let few = (length-sent rs os).0 in
    elim (stored_cases rs rest os w.box.saved) [
      | inl (same, nothing) ↦
          batch-Accounts w.accepted w.topic [] (sent rs os) n (doubts os) w.box.saved
            (stored rs rest os w.box.saved) (ap messages same) (nothing-IsWithin (sent rs os))
            (ground (arith, few, nothing)) committed
      | inr more ↦
          batch-Accounts w.accepted w.topic (confirmed rs os) (sent rs os) n (doubts os) w.box.rows
            (stored rs rest os w.box.saved) (more ∙ ap messages (sym split))
            (confirmed-IsWithin rs os) few view
    ]

pub drained_world-IsSound :
    (limit n : ℕ) (rs rest : List Row) (os : List Outcome) (w : World)
    → w.box.rows ≡ rs ++ rest
    → IsSound limit n w
    → IsSound limit (n + doubts os) (drained_world rs rest os w)
unfolding drained_world
drained_world-IsSound limit n rs rest os w split (view, committed, table, table', same) =
    let table'' = subst (IsTable limit w.box.next_id) split table in
    (
      batch-Accounts w.accepted w.topic (removed rs os) (sent rs os) n (doubts os) w.box.rows
          (kept rs os ++ rest) (removed-kept rs rest os ∙ ap messages (sym split))
          (removed-IsWithin rs os) (omega (arith, (length-sent rs os).0, (length-sent rs os).1))
          view,
      saved-Accounts n rs rest os w split view committed,
      kept-IsTable limit w.box.next_id rs rest os table'',
      stored-IsTable limit w.box.next_id rs rest os w.box.saved table'' table',
      same,
    )

pub drained_eq :
    (os : List Outcome) (w : World)
    → w.box.is_open ≡ true
    → IsOrdered w.box.next_id w.box.rows
    → happen (drained os) w ≡ drained_world (limited 100 w.box.rows) (beyond 100 w.box.rows) os w
unfolding happen drain_batch drained_world
drained_eq os w ready ordered =
    let split = limited-beyond 100 w.box.rows in
    let run =
      drain_rows_lem (limited 100 w.box.rows) (beyond 100 w.box.rows) os w.box w.topic 0 (sym split)
        (subst (λ l. IsOrdered w.box.next_id l) (sym split) ordered) in
    ground (arith, ready, run)

more_doubts :
    (accepted topic : List ℕ) (n d : ℕ) (rows : List Row)
    → Accounts accepted topic n rows
    → Accounts accepted topic (n + d) rows
more_doubts accepted topic n d rows (gone, order, within, few) =
    (gone, order, within, omega (arith, few))

pub closed_drain-IsSound :
    (limit n : ℕ) (os : List Outcome) (w : World)
    → w.box.is_open ≡ false
    → IsSound limit n w
    → IsSound limit (n + doubts os) (happen (drained os) w)
unfolding happen drain_batch
closed_drain-IsSound limit n os w shut (view, committed, table, table', same) = rw shut (
  more_doubts w.accepted w.topic n (doubts os) w.box.rows view,
  more_doubts w.accepted w.topic n (doubts os) w.box.saved committed,
  table,
  table',
  same,
)
