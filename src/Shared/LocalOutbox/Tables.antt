-- ===== src/Shared/LocalOutbox/Tables.antt =====
-- local_outbox.py: the bounds and the order of a table over a batch and an insertion.
use quant_embrace_v.Common.{ℕ, ◌+◌, ◌≤◌, ◌<◌, List, [], ◌∷◌, ◌++◌, arith, length, All}
use quant_embrace_v.Shared.LocalOutbox.{Row, Outcome, delivered, refused, unconfirmed, uncommitted}
use quant_embrace_v.Shared.LocalOutbox.Batch.{IsOrdered, kept, stored}

-- A property of lists that a shorter tail has too.
abbrev Falls : (List Row → Type 0) → Type 0
Falls P = (r : Row) (rs : List Row) → P (r ∷ rs) → P rs

kept_falls :
    (P : List Row → Type 0)
    → Falls P
    → (rs rest : List Row) (os : List Outcome) → P (rs ++ rest)
    → P (kept rs os ++ rest)
kept_falls P fall [] rest os h = h
kept_falls P fall (r ∷ rs) rest [] h = h
kept_falls P fall (r ∷ rs) rest (delivered ∷ os) h =
    kept_falls P fall rs rest os (fall r (rs ++ rest) h)
kept_falls P fall (r ∷ rs) rest (refused ∷ os) h = h
kept_falls P fall (r ∷ rs) rest (unconfirmed ∷ os) h = h
kept_falls P fall (r ∷ rs) rest (uncommitted ∷ os) h = fall r (rs ++ rest) h

stored_falls :
    (P : List Row → Type 0)
    → Falls P
    → (rs rest : List Row) (os : List Outcome) (saved : List Row) → P (rs ++ rest)
    → P saved
    → P (stored rs rest os saved)
stored_falls P fall [] rest os saved h k = k
stored_falls P fall (r ∷ rs) rest [] saved h k = k
stored_falls P fall (r ∷ rs) rest (delivered ∷ os) saved h k =
    let h' = fall r (rs ++ rest) h in stored_falls P fall rs rest os (rs ++ rest) h' h'
stored_falls P fall (r ∷ rs) rest (refused ∷ os) saved h k = k
stored_falls P fall (r ∷ rs) rest (unconfirmed ∷ os) saved h k = k
stored_falls P fall (r ∷ rs) rest (uncommitted ∷ os) saved h k = k

-- A table of at most `limit` rows with ascending ids.
abbrev pub IsTable : ℕ → ℕ → List Row → Type 0
IsTable limit next rs = (length rs ≤ limit) × IsOrdered next rs

IsTable-falls : (limit next : ℕ) → Falls (IsTable limit next)
IsTable-falls limit next r rs (few, ordered) = (omega (arith, few), ordered.2)

pub kept-IsTable :
    (limit next : ℕ) (rs rest : List Row) (os : List Outcome)
    → IsTable limit next (rs ++ rest)
    → IsTable limit next (kept rs os ++ rest)
kept-IsTable limit next = kept_falls (IsTable limit next) (IsTable-falls limit next)

pub stored-IsTable :
    (limit next : ℕ) (rs rest : List Row) (os : List Outcome) (saved : List Row)
    → IsTable limit next (rs ++ rest)
    → IsTable limit next saved
    → IsTable limit next (stored rs rest os saved)
stored-IsTable limit next = stored_falls (IsTable limit next) (IsTable-falls limit next)

-- A new id is behind all others.
snoc-later :
    (id next message : ℕ) (rs : List Row)
    → id < next
    → All (λ (s : Row). id < s.id) rs
    → All (λ (s : Row). id < s.id) (rs ++ (record { id = next; message = message } ∷ []))
snoc-later id next message [] lt h = (lt, tt)
snoc-later id next message (r ∷ rs) lt h = (h.0, snoc-later id next message rs lt h.1)

pub snoc-IsOrdered :
    (next message : ℕ) (rs : List Row)
    → IsOrdered next rs
    → IsOrdered (next + 1) (rs ++ (record { id = next; message = message } ∷ []))
snoc-IsOrdered next message [] h = (omega arith, tt, tt)
snoc-IsOrdered next message (r ∷ rs) h = (
  omega (arith, h.0),
  snoc-later r.id next message rs h.0 h.1,
  snoc-IsOrdered next message rs h.2,
)
