-- ===== src/Shared/LocalOutbox/Batch.antt =====
-- local_outbox.py: one batch of the drain against what it confirms, keeps and sends.
use quant_embrace_v.Common.{
  ℕ, zero, suc, ◌+◌, ◌≤◌, ◌<◌, ◌≡◌, refl, ap, ◌⊎◌, inl, inr, List, [], ◌∷◌, ◌++◌, map, arith,
  length, All,
}
use quant_embrace_v.Shared.LocalOutbox.{
  Row, Outbox, Outcome, delivered, refused, unconfirmed, uncommitted, delete, limited, drain_rows,
}

-- The ids ascend, below the next one.
abbrev pub IsOrdered : ℕ → List Row → Type 0
IsOrdered next [] = Unit
IsOrdered next (r ∷ rs) = (r.id < next) × All (λ (s : Row). r.id < s.id) rs × IsOrdered next rs

delete_later : (id : ℕ) (rs : List Row) → All (λ (s : Row). id < s.id) rs → delete id rs ≡ rs
unfolding delete
delete_later id [] h = refl
delete_later id (r ∷ rs) h = ground (arith, delete_later id rs h.1)

delete_first :
    (r : Row) (rs : List Row) → All (λ (s : Row). r.id < s.id) rs → delete r.id (r ∷ rs) ≡ rs
unfolding delete
delete_first r rs h = ground (arith, delete_later r.id rs h)

-- What a batch commits to have deleted, what it deletes in the view of the connection, what the view
-- and the committed table keep, and what it sends.
abbrev pub confirmed : List Row → List Outcome → List ℕ
confirmed [] os = []
confirmed (r ∷ rs) [] = []
confirmed (r ∷ rs) (delivered ∷ os) = r.message ∷ confirmed rs os
confirmed (r ∷ rs) (refused ∷ os) = []
confirmed (r ∷ rs) (unconfirmed ∷ os) = []
confirmed (r ∷ rs) (uncommitted ∷ os) = []

abbrev pub removed : List Row → List Outcome → List ℕ
removed [] os = []
removed (r ∷ rs) [] = []
removed (r ∷ rs) (delivered ∷ os) = r.message ∷ removed rs os
removed (r ∷ rs) (refused ∷ os) = []
removed (r ∷ rs) (unconfirmed ∷ os) = []
removed (r ∷ rs) (uncommitted ∷ os) = r.message ∷ []

abbrev pub kept : List Row → List Outcome → List Row
kept [] os = []
kept (r ∷ rs) [] = r ∷ rs
kept (r ∷ rs) (delivered ∷ os) = kept rs os
kept (r ∷ rs) (refused ∷ os) = r ∷ rs
kept (r ∷ rs) (unconfirmed ∷ os) = r ∷ rs
kept (r ∷ rs) (uncommitted ∷ os) = rs

abbrev pub stored : List Row → List Row → List Outcome → List Row → List Row
stored [] rest os saved = saved
stored (r ∷ rs) rest [] saved = saved
stored (r ∷ rs) rest (delivered ∷ os) saved = stored rs rest os (rs ++ rest)
stored (r ∷ rs) rest (refused ∷ os) saved = saved
stored (r ∷ rs) rest (unconfirmed ∷ os) saved = saved
stored (r ∷ rs) rest (uncommitted ∷ os) saved = saved

abbrev pub sent : List Row → List Outcome → List ℕ
sent [] os = []
sent (r ∷ rs) [] = []
sent (r ∷ rs) (delivered ∷ os) = r.message ∷ sent rs os
sent (r ∷ rs) (refused ∷ os) = []
sent (r ∷ rs) (unconfirmed ∷ os) = r.message ∷ []
sent (r ∷ rs) (uncommitted ∷ os) = r.message ∷ []

pub append_assoc : {A : Type 0} (xs ys zs : List A) → (xs ++ ys) ++ zs ≡ xs ++ (ys ++ zs)
append_assoc [] ys zs = refl
append_assoc (x ∷ xs) ys zs = ap (λ l. x ∷ l) (append_assoc xs ys zs)

pub append_empty : {A : Type 0} (xs : List A) → xs ++ [] ≡ xs
append_empty [] = refl
append_empty (x ∷ xs) = ap (λ l. x ∷ l) (append_empty xs)

-- The loop does what these say, with any rows behind the batch.
pub drain_rows_lem :
    (rs rest : List Row) (os : List Outcome) (b : Outbox) (topic : List ℕ) (n : ℕ)
    → b.rows ≡ rs ++ rest
    → IsOrdered b.next_id (rs ++ rest)
    → drain_rows rs os b topic n ≡ (
      record b { rows = kept rs os ++ rest; saved = stored rs rest os b.saved },
      topic ++ sent rs os,
      n + length (confirmed rs os),
    )
unfolding drain_rows
drain_rows_lem [] rest os b topic n is ord = ground (arith, is, append_empty topic)
drain_rows_lem (r ∷ rs) rest [] b topic n is ord = ground (arith, is, append_empty topic)
drain_rows_lem (r ∷ rs) rest (delivered ∷ os) b topic n is ord =
    let left = delete r.id b.rows in
    let b' = record b { rows = left; saved = left } in
    let same : left ≡ rs ++ rest = rw is (delete_first r (rs ++ rest) ord.1) in
    let run = drain_rows_lem rs rest os b' (topic ++ (r.message ∷ [])) (n + 1) same ord.2 in
    ground (arith, run, same, append_assoc topic (r.message ∷ []) (sent rs os))
drain_rows_lem (r ∷ rs) rest (refused ∷ os) b topic n is ord =
    ground (arith, is, append_empty topic)
drain_rows_lem (r ∷ rs) rest (unconfirmed ∷ os) b topic n is ord = ground (arith, is)
drain_rows_lem (r ∷ rs) rest (uncommitted ∷ os) b topic n is ord =
    let same : delete r.id b.rows ≡ rs ++ rest = rw is (delete_first r (rs ++ rest) ord.1) in
    ground (arith, same)

-- The first list in the second, in its order.
pub data IsWithin : List ℕ → List ℕ → Type 0 where
  ends : IsWithin [] []
  keeps : (x : ℕ) {xs ys : List ℕ} → IsWithin xs ys → IsWithin (x ∷ xs) (x ∷ ys)
  skips : (y : ℕ) {xs ys : List ℕ} → IsWithin xs ys → IsWithin xs (y ∷ ys)

pub IsWithin-append :
    {us vs xs ys : List ℕ} → IsWithin us vs → IsWithin xs ys → IsWithin (us ++ xs) (vs ++ ys)
IsWithin-append ends h = h
IsWithin-append (keeps x h') h = keeps x (IsWithin-append h' h)
IsWithin-append (skips y h') h = skips y (IsWithin-append h' h)

pub nothing-IsWithin : (ys : List ℕ) → IsWithin [] ys
nothing-IsWithin [] = ends
nothing-IsWithin (y ∷ ys) = skips y (nothing-IsWithin ys)

pub confirmed-IsWithin :
    (rs : List Row) (os : List Outcome) → IsWithin (confirmed rs os) (sent rs os)
confirmed-IsWithin [] os = ends
confirmed-IsWithin (r ∷ rs) [] = ends
confirmed-IsWithin (r ∷ rs) (delivered ∷ os) = keeps r.message (confirmed-IsWithin rs os)
confirmed-IsWithin (r ∷ rs) (refused ∷ os) = ends
confirmed-IsWithin (r ∷ rs) (unconfirmed ∷ os) = skips r.message ends
confirmed-IsWithin (r ∷ rs) (uncommitted ∷ os) = skips r.message ends

pub removed-IsWithin : (rs : List Row) (os : List Outcome) → IsWithin (removed rs os) (sent rs os)
removed-IsWithin [] os = ends
removed-IsWithin (r ∷ rs) [] = ends
removed-IsWithin (r ∷ rs) (delivered ∷ os) = keeps r.message (removed-IsWithin rs os)
removed-IsWithin (r ∷ rs) (refused ∷ os) = ends
removed-IsWithin (r ∷ rs) (unconfirmed ∷ os) = skips r.message ends
removed-IsWithin (r ∷ rs) (uncommitted ∷ os) = keeps r.message ends

abbrev pub messages : List Row → List ℕ
messages rs = map (λ (r : Row). r.message) rs

pub removed-kept :
    (rs rest : List Row) (os : List Outcome)
    → removed rs os ++ messages (kept rs os ++ rest) ≡ messages (rs ++ rest)
removed-kept [] rest os = refl
removed-kept (r ∷ rs) rest [] = refl
removed-kept (r ∷ rs) rest (delivered ∷ os) = ap (λ l. r.message ∷ l) (removed-kept rs rest os)
removed-kept (r ∷ rs) rest (refused ∷ os) = refl
removed-kept (r ∷ rs) rest (unconfirmed ∷ os) = refl
removed-kept (r ∷ rs) rest (uncommitted ∷ os) = refl

-- The committed table is as it was, with nothing committed, or it is the view after what is.
pub stored_cases :
    (rs rest : List Row) (os : List Outcome) (saved : List Row)
    → ((stored rs rest os saved ≡ saved) × (confirmed rs os ≡ []))
      ⊎ (confirmed rs os ++ messages (stored rs rest os saved) ≡ messages (rs ++ rest))
stored_cases [] rest os saved = inl (refl, refl)
stored_cases (r ∷ rs) rest [] saved = inl (refl, refl)
stored_cases (r ∷ rs) rest (delivered ∷ os) saved = elim (stored_cases rs rest os (rs ++ rest)) [
  | inl (same, nothing) ↦ inr (rw (same, nothing) refl)
  | inr more ↦ inr (ap (λ l. r.message ∷ l) more)
]
stored_cases (r ∷ rs) rest (refused ∷ os) saved = inl (refl, refl)
stored_cases (r ∷ rs) rest (unconfirmed ∷ os) saved = inl (refl, refl)
stored_cases (r ∷ rs) rest (uncommitted ∷ os) saved = inl (refl, refl)

-- The outcomes that can leave a message out twice.
abbrev pub doubts : List Outcome → ℕ
doubts [] = 0
doubts (delivered ∷ os) = doubts os
doubts (refused ∷ os) = doubts os
doubts (unconfirmed ∷ os) = 1 + doubts os
doubts (uncommitted ∷ os) = 1 + doubts os

pub length-sent :
    (rs : List Row) (os : List Outcome)
    → (length (sent rs os) ≤ length (confirmed rs os) + doubts os)
      × (length (confirmed rs os) ≤ length (removed rs os))
length-sent [] os = ground arith
length-sent (r ∷ rs) [] = ground arith
length-sent (r ∷ rs) (delivered ∷ os) = ground (arith, length-sent rs os)
length-sent (r ∷ rs) (refused ∷ os) = ground arith
length-sent (r ∷ rs) (unconfirmed ∷ os) = ground arith
length-sent (r ∷ rs) (uncommitted ∷ os) = ground arith

abbrev pub beyond : ℕ → List Row → List Row
beyond n [] = []
beyond zero (r ∷ rs) = r ∷ rs
beyond (suc n) (r ∷ rs) = beyond n rs

pub limited-beyond : (n : ℕ) (rs : List Row) → limited n rs ++ beyond n rs ≡ rs
unfolding limited
limited-beyond n [] = refl
limited-beyond zero (r ∷ rs) = refl
limited-beyond (suc n) (r ∷ rs) = ap (λ l. r ∷ l) (limited-beyond n rs)
