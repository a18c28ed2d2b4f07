-- ===== src/Risk/Publishing/Decisions.antt =====
-- service.py, the processing loops: one signal is published under one decision.
use quant_embrace_v.Common.{
  ℕ, ◌≡◌, ◌⊎◌, inl, inr, refl, true, false, some, List, [], ◌∷◌, arith, All, All-append, Bool-cases,
  Option-cases,
}
use quant_embrace_v.Risk.Publishing.{
  Reservation, DecisionTable, Message, Course, Topic, Ended, done, raised, Handling, World,
  handle_existing_approval_reservation, publish_decision, process_pending, replay_enriched,
  process_enriched, after_pending, after_enriched,
}
use quant_embrace_v.Risk.Publishing.Steps.{
  id_of, Kept, Step, Existing, Faithful, quiet-Step, again-Step, decide-Step, handle_cases,
  replay_cases,
}

-- `(s, id)` stands in the topic.
abbrev pub Published : ℕ → ℕ → Topic → Type 0
Published s id [] = true ≡ false
Published s id (p ∷ ps) = (p ≡ (s, id)) ⊎ Published s id ps

-- The two processing loops.
pub data Loop : Type 0 where
  pending_loop enriched_loop : Loop

module _ (db : DecisionTable) where
  open db use {Table, get_item}

  abbrev pub process : Loop → Message → Course → World db → Handling × World db
  process pending_loop = process_pending db
  process enriched_loop = process_enriched db

  after_pending_keeps : (c : Course) (x : Ended × World db) → (after_pending db c x).1 ≡ x.1
  after_pending_keeps c (done, w) = refl
  after_pending_keeps c (raised, w) = refl

  after_enriched_keeps : (c : Course) (x : Ended × World db) → (after_enriched db c x).1 ≡ x.1
  after_enriched_keeps c (done, w) = refl
  after_enriched_keeps c (raised, w) = refl

  -- What a message leads to, by the reservation that is found.
  abbrev pub Leads : Existing db → Message → Course → World db → World db → Type 0
  Leads existing m c w w' =
      (w' ≡ w)
      ⊎ (((r : Reservation) × (get_item w.table m.signal_id ≡ some r) × (w' ≡ (existing r w).1))
          ⊎ (w' ≡ (publish_decision db existing m.signal_id c w).1))

  abbrev pub existing_in : Loop → Message → Course → Existing db
  existing_in pending_loop m c r w = handle_existing_approval_reservation db m.signal_id r c w
  existing_in enriched_loop m c r w = replay_enriched db m.signal_id r c w

  pub process_outcomes :
      (loop : Loop) (m : Message) (c : Course) (w : World db)
      → Leads (existing_in loop m c) m c w (process loop m c w).1
  unfolding process_pending process_enriched
  process_outcomes pending_loop m c w = elim (Bool-cases c.read_seen) [
    | inr unseen ↦ inl (ground (arith, unseen))
    | inl seen ↦ elim (Option-cases (get_item w.table m.signal_id)) [
      | inr (r, e) ↦ inr (
          inl (
            r,
            e,
            ground (
              arith,
              seen,
              e,
              after_pending_keeps c (handle_existing_approval_reservation db m.signal_id r c w),
            ),
          ))
      | inl e ↦ elim (Bool-cases m.expired) [
        | inl late ↦ inl (ground (arith, seen, e, late))
        | inr timely ↦ elim (Bool-cases c.decision.approved) [
          | inr rejected ↦ inl (ground (arith, seen, e, timely, rejected))
          | inl approved ↦ inr (
              inr (
                ground (
                  arith,
                  seen,
                  e,
                  timely,
                  approved,
                  after_pending_keeps c
                      (publish_decision db (existing_in pending_loop m c) m.signal_id c w),
                )))
        ]
      ]
    ]
  ]
  process_outcomes enriched_loop m c w = elim (Bool-cases c.read_seen) [
    | inr unseen ↦ inl (ground (arith, unseen))
    | inl seen ↦ elim (Option-cases (get_item w.table m.signal_id)) [
      | inr (r, e) ↦ inr (
          inl (
            r,
            e,
            ground (arith, seen, e, after_enriched_keeps c (replay_enriched db m.signal_id r c w)),
          ))
      | inl e ↦ elim (Bool-cases m.expired) [
        | inl late ↦ inl (ground (arith, seen, e, late))
        | inr timely ↦ elim (Bool-cases c.decision.approved) [
          | inr rejected ↦ inl (ground (arith, seen, e, timely, rejected))
          | inl approved ↦ inr (
              inr (
                ground (
                  arith,
                  seen,
                  e,
                  timely,
                  approved,
                  after_enriched_keeps c
                      (publish_decision db (existing_in enriched_loop m c) m.signal_id c w),
                )))
        ]
      ]
    ]
  ]

  pub careful_existing :
      (loop : Loop) (m : Message) (c : Course) → Faithful db m.signal_id c (existing_in loop m c)
  careful_existing pending_loop m c r w = handle_cases db m.signal_id r c w
  careful_existing enriched_loop m c r w = replay_cases db m.signal_id r c w

  lead-Step :
      (existing : Existing db) (m : Message) (c : Course) (w w' : World db)
      → Faithful db m.signal_id c existing
      → Leads existing m c w w'
      → Step db m.signal_id w w'
  lead-Step existing m c w w' careful (inl same) = rw same (quiet-Step db m.signal_id w)
  lead-Step existing m c w w' careful (inr (inl (r, e, same))) =
      rw same (again-Step db m.signal_id r c w (existing r w) e (careful r w))
  lead-Step existing m c w w' careful (inr (inr same)) =
      rw same (decide-Step db existing m.signal_id c w careful)

  pub process-Step :
      (loop : Loop) (m : Message) (c : Course) (w : World db)
      → Step db m.signal_id w (process loop m c w).1
  process-Step loop m c w =
      lead-Step (existing_in loop m c) m c w (process loop m c w).1 (careful_existing loop m c)
        (process_outcomes loop m c w)

  -- Every publication of the topic carries the decision that is reserved for its signal.
  abbrev pub Agreed : World db → Type 0
  Agreed w = All (λ (p : ℕ × ℕ). id_of (get_item w.table p.0) ≡ some p.1) w.topic

  agreed_later :
      (t t' : Table) (ps : Topic)
      → Kept db t t'
      → All (λ (p : ℕ × ℕ). id_of (get_item t p.0) ≡ some p.1) ps
      → All (λ (p : ℕ × ℕ). id_of (get_item t' p.0) ≡ some p.1) ps
  agreed_later t t' [] keeps h = h
  agreed_later t t' (p ∷ ps) keeps h = (keeps p.0 p.1 h.0, agreed_later t t' ps keeps h.1)

  step-Agreed : (s : ℕ) (w w' : World db) → Step db s w w' → Agreed w → Agreed w'
  step-Agreed s w w' (keeps, inl same) h = rw same (agreed_later w.table w'.table w.topic keeps h)
  step-Agreed s w w' (keeps, inr (id, same, own)) h = rw same (
      All-append (λ (p : ℕ × ℕ). id_of (get_item w'.table p.0) ≡ some p.1) w.topic ((s, id) ∷ [])
        (agreed_later w.table w'.table w.topic keeps h) (own, tt))

  unfoldable pub process_all : List (Loop × Message × Course) → World db → World db
  process_all [] w = w
  process_all ((loop, m, c) ∷ events) w = process_all events (process loop m c w).1

  process_all-Agreed :
      (events : List (Loop × Message × Course)) (w : World db)
      → Agreed w
      → Agreed (process_all events w)
  unfolding process_all
  process_all-Agreed [] w h = h
  process_all-Agreed ((loop, m, c) ∷ events) w h =
      process_all-Agreed events (process loop m c w).1
        (step-Agreed m.signal_id w (process loop m c w).1 (process-Step loop m c w) h)

  agreed_one :
      (w : World db) (s id : ℕ) (ps : Topic)
      → All (λ (p : ℕ × ℕ). id_of (get_item w.table p.0) ≡ some p.1) ps
      → Published s id ps
      → id_of (get_item w.table s) ≡ some id
  agreed_one w s id [] h at = cc
  agreed_one w s id (p ∷ ps) h (inl same) = rw same at h.0
  agreed_one w s id (p ∷ ps) h (inr at) = agreed_one w s id ps h.1 at

  -- Whatever messages the two loops process, in whatever order and with whatever errors of the table
  -- and of Kafka, a signal that is published more than once is published under the same decision each
  -- time, from any start where the topic agrees with the reservations.
  pub one_decision_per_signal :
      (events : List (Loop × Message × Course)) (w : World db) (s id id' : ℕ)
      → Agreed w
      → Published s id (process_all events w).topic
      → Published s id' (process_all events w).topic
      → id ≡ id'
  one_decision_per_signal events w s id id' h at at' =
      let w' = process_all events w in
      let agreed = process_all-Agreed events w h in
      let first = agreed_one w' s id w'.topic agreed at in
      let second = agreed_one w' s id' w'.topic agreed at' in ground (arith, first, second)
