-- ===== src/Risk/Publishing/Rows.antt =====
-- service.py, the processing loops: a reservation is marked as published after its signal is.
use quant_embrace_v.Common.{
  ℕ, ◌≡◌, ◌⊎◌, inl, inr, refl, true, false, not, ◌&&◌, some, List, [], ◌∷◌, ◌++◌, ◌==◌, arith,
  is_some, Bool-cases, Option-cases,
}
use quant_embrace_v.Execution.Orders.Database.{Fate, answered, lost_before, lost_after}
use quant_embrace_v.Risk.Publishing.{
  pending, published, Reservation, has_id, marked, DecisionTable, Message, Course, Topic, Ended,
  World, mark_risk_decision_published, publish_approved_signal,
}
use quant_embrace_v.Risk.Publishing.Steps.{
  Fate-cases, delivered, publish_answered, publish_unseen, publish_lost, put_world, own_row,
  Republishes, Existing, Faithful, Verdict, decide_cases,
}
use quant_embrace_v.Risk.Publishing.Decisions.{
  Published, Loop, process, Leads, existing_in, process_outcomes, careful_existing, process_all,
}

-- The signal stands in the topic, under some decision.
abbrev pub IsOut : ℕ → Topic → Type 0
IsOut s topic = (id : ℕ) × Published s id topic

pub last-Published : (s id : ℕ) (ps : Topic) → Published s id (ps ++ ((s, id) ∷ []))
last-Published s id [] = inl refl
last-Published s id (p ∷ ps) = inr (last-Published s id ps)

-- A row is pending, or published and then its signal is in the topic; it has a decision.
abbrev pub RowKept : ℕ → Topic → Reservation → Type 0
RowKept s topic r =
    (r.publish_status ≡ some pending) ⊎ ((r.publish_status ≡ some published) × IsOut s topic)

pub later-Published : (s id : ℕ) (ps qs : Topic) → Published s id ps → Published s id (ps ++ qs)
later-Published s id (p ∷ ps) qs (inl same) = inl same
later-Published s id (p ∷ ps) qs (inr at) = inr (later-Published s id ps qs at)
later-Published s id [] qs h = cc

later-RowKept : (s : ℕ) (r : Reservation) (ps qs : Topic) → RowKept s ps r → RowKept s (ps ++ qs) r
later-RowKept s r ps qs (inl waiting) = inl waiting
later-RowKept s r ps qs (inr (at, (id, out))) = inr (at, (id, later-Published s id ps qs out))

marked_published :
    (x r : Reservation) → marked (some x) ≡ some r → r.publish_status ≡ some published
marked_published x r h = ground (arith, h)

never : {A : Type 0} → true ≡ false → A
never h = cc

module _ (db : DecisionTable) where
  open db use {
    Table, get_item, put_absent, mark_item, put_absent_reply, get_item-put_absent,
    get_item-mark_item,
  }

  pub mark_keeps_topic :
      (s id : ℕ) (fate : Fate) (w : World db)
      → (mark_risk_decision_published db s id fate w).1.topic ≡ w.topic
  unfolding mark_risk_decision_published
  mark_keeps_topic s id answered w = refl
  mark_keeps_topic s id lost_before w = refl
  mark_keeps_topic s id lost_after w = refl

  abbrev pub RowsKept : World db → Type 0
  RowsKept w = (s : ℕ) (r : Reservation) → get_item w.table s ≡ some r → RowKept s w.topic r

  mark-RowsKept :
      (s id : ℕ) (w : World db)
      → RowsKept w
      → IsOut s w.topic
      → RowsKept (record w { table = (mark_item s id w.table).1 })
  mark-RowsKept s id w kept out j r e =
      let law = get_item-mark_item s id w.table j in
      elim (Bool-cases (has_id id (get_item w.table s) && s == j)) [
        | inr other ↦ kept j r (ground (arith, e, other, law))
        | inl here ↦ elim (Option-cases (get_item w.table j)) [
          | inl gone ↦ never (ground (arith, e, here, law, gone))
          | inr (x, there) ↦
              let same : j ≡ s = ground (arith, here) in
              let now_marked : marked (some x) ≡ some r = ground (arith, e, here, law, there) in
              inr (marked_published x r now_marked, rw same out)
        ]
      ]

  delivered-RowsKept : (s id : ℕ) (w : World db) → RowsKept w → RowsKept (delivered db s id w)
  delivered-RowsKept s id w kept j r e = later-RowKept j r w.topic ((s, id) ∷ []) (kept j r e)

  marks-RowsKept :
      (s id : ℕ) (fate : Fate) (w : World db)
      → RowsKept w
      → IsOut s w.topic
      → RowsKept (mark_risk_decision_published db s id fate w).1
  unfolding mark_risk_decision_published
  marks-RowsKept s id answered w kept out = mark-RowsKept s id w kept out
  marks-RowsKept s id lost_before w kept out = kept
  marks-RowsKept s id lost_after w kept out = mark-RowsKept s id w kept out

  publish-RowsKept :
      (s id : ℕ) (c : Course) (w : World db)
      → RowsKept w
      → RowsKept (publish_approved_signal db s id c w).1
  publish-RowsKept s id c w kept = elim (Fate-cases db c.publish_fate) [
    | inl e ↦ rw (publish_answered db s id c w e) (
        marks-RowsKept s id c.mark_fate (delivered db s id w) (delivered-RowsKept s id w kept)
          (id, last-Published s id w.topic))
    | inr rest ↦ elim rest [
      | inl e ↦ rw (publish_lost db s id c w e) kept
      | inr e ↦ rw (publish_unseen db s id c w e) (delivered-RowsKept s id w kept)
    ]
  ]

  put-RowsKept : (s : ℕ) (c : Course) (w : World db) → RowsKept w → RowsKept (put_world db s c w)
  put-RowsKept s c w kept j r e =
      let law = get_item-put_absent s (own_row db c) w.table j in
      elim (Bool-cases (not (is_some (get_item w.table s)) && s == j)) [
        | inr other ↦ kept j r (ground (arith, e, other, law))
        | inl here ↦ inl (ground (arith, e, here, law))
      ]

  again-RowsKept :
      (s : ℕ) (r : Reservation) (c : Course) (w : World db) (result : Ended × World db)
      → Republishes db s r c w result
      → RowsKept w
      → RowsKept result.1
  again-RowsKept s r c w result (inl same) kept = rw same kept
  again-RowsKept s r c w result (inr (id, own, same)) kept =
      rw same (publish-RowsKept s id c w kept)

  judged-RowsKept :
      (existing : Existing db) (s : ℕ) (c : Course) (w : World db) (result : Ended × World db)
      → Faithful db s c existing
      → Verdict db existing s c w result
      → RowsKept w
      → RowsKept result.1
  judged-RowsKept existing s c w result careful (inl (inl same)) kept = rw same kept
  judged-RowsKept existing s c w result careful (inl (inr same)) kept =
      rw same (put-RowsKept s c w kept)
  judged-RowsKept existing s c w result careful (inr (inl (own, same))) kept = rw same (
      publish-RowsKept s c.decision.risk_decision_id c (put_world db s c w)
        (put-RowsKept s c w kept))
  judged-RowsKept existing s c w result careful (inr (inr (r, e, lost, same))) kept = rw same (
      again-RowsKept s r c (put_world db s c w) (existing r (put_world db s c w))
        (careful r (put_world db s c w)) (put-RowsKept s c w kept))

  lead-RowsKept :
      (existing : Existing db) (m : Message) (c : Course) (w w' : World db)
      → Faithful db m.signal_id c existing
      → Leads db existing m c w w'
      → RowsKept w
      → RowsKept w'
  lead-RowsKept existing m c w w' careful (inl same) kept = rw same kept
  lead-RowsKept existing m c w w' careful (inr (inl (r, e, same))) kept =
      rw same (again-RowsKept m.signal_id r c w (existing r w) (careful r w) kept)
  lead-RowsKept existing m c w w' careful (inr (inr same)) kept = rw same (
      judged-RowsKept existing m.signal_id c w _ careful (decide_cases db existing m.signal_id c w)
        kept)

  -- Processing keeps the rows: each is pending, or published with its signal in the topic.
  pub process_all-RowsKept :
      (events : List (Loop × Message × Course)) (w : World db)
      → RowsKept w
      → RowsKept (process_all db events w)
  unfolding process_all
  process_all-RowsKept [] w kept = kept
  process_all-RowsKept ((loop, m, c) ∷ events) w kept =
      process_all-RowsKept events (process db loop m c w).1 (
        lead-RowsKept (existing_in db loop m c) m c w (process db loop m c w).1
          (careful_existing db loop m c) (process_outcomes db loop m c w) kept)
