-- ===== src/Risk/Publishing/Steps.antt =====
-- service.py, the processing loops: what each step does to the reservations and to the topic.
use quant_embrace_v.Common.{
  ℕ, ◌≡◌, ◌⊎◌, inl, inr, refl, true, false, Option, none, some, [], ◌∷◌, ◌++◌, ◌==◌, arith,
  Bool-cases, Option-cases,
}
use quant_embrace_v.Execution.Orders.Database.{Fate, answered, lost_before, lost_after}
use quant_embrace_v.Risk.Publishing.{
  PublishStatus, pending, published, unknown, Reservation, marked, DecisionTable, Course, Ended,
  raised, World, mark_risk_decision_published, publish_approved_signal,
  handle_existing_approval_reservation, reserve_risk_decision, publish_decision, replay_enriched,
}

abbrev pub id_of : Option Reservation → Option ℕ
id_of none = none
id_of (some r) = r.risk_decision_id

id_of-marked : (r : Option Reservation) → id_of (marked r) ≡ id_of r
id_of-marked none = refl
id_of-marked (some r) = refl

module _ (db : DecisionTable) where
  open db use {
    Table, get_item, put_absent, mark_item, put_absent_reply, get_item-put_absent, mark_item_reply,
    get_item-mark_item,
  }

  -- No reservation loses or changes its decision.
  abbrev pub Kept : Table → Table → Type 0
  Kept t t' = (s id : ℕ) → id_of (get_item t s) ≡ some id → id_of (get_item t' s) ≡ some id

  -- The topic has grown by nothing, or by the signal under the decision that is reserved for it.
  abbrev pub Step : ℕ → World db → World db → Type 0
  Step s w w' =
      Kept w.table w'.table
      × ((w'.topic ≡ w.topic)
          ⊎ ((id : ℕ) × (w'.topic ≡ w.topic ++ ((s, id) ∷ []))
              × (id_of (get_item w'.table s) ≡ some id)))

  mark-Kept : (s id : ℕ) (t : Table) → Kept t (mark_item s id t).1
  mark-Kept s id t j own h =
      ground (arith, get_item-mark_item s id t j, id_of-marked (get_item t j))

  put-Kept : (s : ℕ) (r : Reservation) (t : Table) → Kept t (put_absent s r t).1
  put-Kept s r t j own h = elim (Option-cases (get_item t j)) [
    | inl e ↦ ground (arith, e, h)
    | inr (x, e) ↦ elim (Bool-cases (s == j)) [
      | inl same ↦ ground (arith, e, same, get_item-put_absent s r t j)
      | inr other ↦ ground (arith, e, other, get_item-put_absent s r t j)
    ]
  ]

  mark-keeps :
      (s id : ℕ) (fate : Fate) (w : World db)
      → let w' = (mark_risk_decision_published db s id fate w).1 in
        Kept w.table w'.table × (w'.topic ≡ w.topic)
  unfolding mark_risk_decision_published
  mark-keeps s id answered w = (mark-Kept s id w.table, refl)
  mark-keeps s id lost_before w = (λ j own h. h, refl)
  mark-keeps s id lost_after w = (mark-Kept s id w.table, refl)

  -- The world after a delivery that arrives.
  abbrev pub delivered : ℕ → ℕ → World db → World db
  delivered s id w = record w { topic = w.topic ++ ((s, id) ∷ []) }

  pub publish_answered :
      (s id : ℕ) (c : Course) (w : World db)
      → c.publish_fate ≡ answered
      → publish_approved_signal db s id c w
        ≡ mark_risk_decision_published db s id c.mark_fate (delivered s id w)
  unfolding publish_approved_signal
  publish_answered s id c w e = ground (arith, e)

  pub publish_unseen :
      (s id : ℕ) (c : Course) (w : World db)
      → c.publish_fate ≡ lost_after
      → publish_approved_signal db s id c w ≡ (raised, delivered s id w)
  unfolding publish_approved_signal
  publish_unseen s id c w e = ground (arith, e)

  pub publish_lost :
      (s id : ℕ) (c : Course) (w : World db)
      → c.publish_fate ≡ lost_before
      → publish_approved_signal db s id c w ≡ (raised, w)
  unfolding publish_approved_signal
  publish_lost s id c w e = ground (arith, e)

  pub Fate-cases : (f : Fate) → (f ≡ answered) ⊎ ((f ≡ lost_before) ⊎ (f ≡ lost_after))
  Fate-cases answered = inl refl
  Fate-cases lost_before = inr (inl refl)
  Fate-cases lost_after = inr (inr refl)

  publish-Step :
      (s id : ℕ) (c : Course) (w : World db)
      → id_of (get_item w.table s) ≡ some id
      → Step s w (publish_approved_signal db s id c w).1
  publish-Step s id c w h = elim (Fate-cases c.publish_fate) [
    | inl e ↦
        let (keeps, same) = mark-keeps s id c.mark_fate (delivered s id w) in
        rw (publish_answered s id c w e) (keeps, inr (id, same, keeps s id h))
    | inr rest ↦ elim rest [
      | inl e ↦ rw (publish_lost s id c w e) (λ j own x. x, inl refl)
      | inr e ↦ rw (publish_unseen s id c w e) (λ j own x. x, inr (id, refl, h))
    ]
  ]

  pub quiet-Step : (s : ℕ) (w : World db) → Step s w w
  quiet-Step s w = (λ j own x. x, inl refl)

  -- An existing reservation is published again under its own decision, or nothing happens.
  abbrev pub Republishes : ℕ → Reservation → Course → World db → Ended × World db → Type 0
  Republishes s r c w result =
      (result.1 ≡ w)
      ⊎ ((id : ℕ) × (r.risk_decision_id ≡ some id) × (result ≡ publish_approved_signal db s id c w))

  handle_status :
      (s id : ℕ) (r : Reservation) (c : Course) (w : World db) (st : PublishStatus)
      → r.risk_decision_id ≡ some id
      → r.publish_status ≡ some st
      → Republishes s r c w (handle_existing_approval_reservation db s r c w)
  unfolding handle_existing_approval_reservation
  handle_status s id r c w pending e d = inr (id, e, ground (arith, e, d))
  handle_status s id r c w published e d = inl (ground (arith, e, d))
  handle_status s id r c w unknown e d = inl (ground (arith, e, d))

  pub handle_cases :
      (s : ℕ) (r : Reservation) (c : Course) (w : World db)
      → Republishes s r c w (handle_existing_approval_reservation db s r c w)
  unfolding handle_existing_approval_reservation
  handle_cases s r c w = elim (Option-cases r.risk_decision_id) [
    | inl e ↦ inl (ground (arith, e))
    | inr (id, e) ↦ elim (Option-cases r.publish_status) [
      | inl d ↦ inl (ground (arith, e, d))
      | inr (st, d) ↦ handle_status s id r c w st e d
    ]
  ]

  replay_status :
      (s id : ℕ) (r : Reservation) (c : Course) (w : World db) (st : PublishStatus)
      → r.risk_decision_id ≡ some id
      → r.publish_status ≡ some st
      → Republishes s r c w (replay_enriched db s r c w)
  unfolding replay_enriched
  replay_status s id r c w pending e d = inr (id, e, ground (arith, e, d))
  replay_status s id r c w published e d = inl (ground (arith, e, d))
  replay_status s id r c w unknown e d = inl (ground (arith, e, d))

  pub replay_cases :
      (s : ℕ) (r : Reservation) (c : Course) (w : World db)
      → Republishes s r c w (replay_enriched db s r c w)
  unfolding replay_enriched
  replay_cases s r c w = elim (Option-cases r.risk_decision_id) [
    | inl e ↦ inl (ground (arith, e))
    | inr (id, e) ↦ elim (Option-cases r.publish_status) [
      | inl d ↦ inl (ground (arith, e, d))
      | inr (st, d) ↦ replay_status s id r c w st e d
    ]
  ]

  pub again-Step :
      (s : ℕ) (r : Reservation) (c : Course) (w : World db) (result : Ended × World db)
      → get_item w.table s ≡ some r
      → Republishes s r c w result
      → Step s w result.1
  again-Step s r c w result h (inl same) = rw same (quiet-Step s w)
  again-Step s r c w result h (inr (id, own, same)) = rw same (publish-Step s id c w (rw h own))

  -- What each loop does with an existing reservation.
  abbrev pub Existing : Type 0
  Existing = Reservation → World db → Ended × World db

  abbrev pub Faithful : ℕ → Course → Existing → Type 0
  Faithful s c existing = (r : Reservation) (w : World db) → Republishes s r c w (existing r w)

  abbrev pub own_row : Course → Reservation
  own_row c = record {
    risk_decision_id = some c.decision.risk_decision_id;
    publish_status = some pending;
  }

  -- The world after the conditional put.
  abbrev pub put_world : ℕ → Course → World db → World db
  put_world s c w = record w { table = (put_absent s (own_row c) w.table).1 }

  after_put : (s : ℕ) (c : Course) (w w' : World db) → Step s (put_world s c w) w' → Step s w w'
  after_put s c w w' (keeps, grows) =
      (λ j own h. keeps j own (put-Kept s (own_row c) w.table j own h), grows)

  won_owns :
      (s : ℕ) (c : Course) (w : World db)
      → (put_absent s (own_row c) w.table).0 ≡ true
      → id_of (get_item (put_world s c w).table s) ≡ some c.decision.risk_decision_id
  won_owns s c w h =
      let same : (s == s) ≡ true = ground arith in
      ground (
        arith,
        h,
        same,
        put_absent_reply s (own_row c) w.table,
        get_item-put_absent s (own_row c) w.table s,
      )

  -- A decision that is approved raises before or after the put, or is published under its own id, or
  -- meets a reservation that was there.
  abbrev pub Verdict : Existing → ℕ → Course → World db → Ended × World db → Type 0
  Verdict existing s c w result =
      ((result ≡ (raised, w)) ⊎ (result ≡ (raised, put_world s c w)))
      ⊎ (((id_of (get_item (put_world s c w).table s) ≡ some c.decision.risk_decision_id)
            × (result
                ≡ publish_approved_signal db s c.decision.risk_decision_id c (put_world s c w)))
          ⊎ ((r : Reservation) × (get_item (put_world s c w).table s ≡ some r)
              × ((put_absent s (own_row c) w.table).0 ≡ false)
              × (result ≡ existing r (put_world s c w))))

  answered_decided :
      (existing : Existing) (s : ℕ) (c : Course) (w : World db)
      → c.reserve_fate ≡ answered
      → Verdict existing s c w (publish_decision db existing s c w)
  unfolding publish_decision reserve_risk_decision
  answered_decided existing s c w f = elim (Bool-cases (put_absent s (own_row c) w.table).0) [
    | inl won ↦ inr (inl (won_owns s c w won, ground (arith, f, won)))
    | inr lost ↦ elim (Option-cases (get_item (put_world s c w).table s)) [
      | inl e ↦ inl (inr (ground (arith, f, lost, e)))
      | inr (r, e) ↦ elim (Bool-cases c.reread_seen) [
        | inl seen ↦ inr (inr (r, e, lost, ground (arith, f, lost, e, seen)))
        | inr unseen ↦ inl (inr (ground (arith, f, lost, e, unseen)))
      ]
    ]
  ]

  pub decide_cases :
      (existing : Existing) (s : ℕ) (c : Course) (w : World db)
      → Verdict existing s c w (publish_decision db existing s c w)
  unfolding publish_decision reserve_risk_decision
  decide_cases existing s c w = elim (Fate-cases c.reserve_fate) [
    | inl e ↦ answered_decided existing s c w e
    | inr rest ↦ elim rest [
      | inl e ↦ inl (inl (ground (arith, e)))
      | inr e ↦ inl (inr (ground (arith, e)))
    ]
  ]

  judged-Step :
      (existing : Existing) (s : ℕ) (c : Course) (w : World db) (result : Ended × World db)
      → Faithful s c existing
      → Verdict existing s c w result
      → Step s w result.1
  judged-Step existing s c w result careful (inl (inl same)) = rw same (quiet-Step s w)
  judged-Step existing s c w result careful (inl (inr same)) =
      rw same (after_put s c w _ (quiet-Step s (put_world s c w)))
  judged-Step existing s c w result careful (inr (inl (own, same))) =
      rw same
        (after_put s c w _ (publish-Step s c.decision.risk_decision_id c (put_world s c w) own))
  judged-Step existing s c w result careful (inr (inr (r, e, lost, same))) = rw same (
      after_put s c w _ (
        again-Step s r c (put_world s c w) (existing r (put_world s c w)) e
          (careful r (put_world s c w))))

  pub decide-Step :
      (existing : Existing) (s : ℕ) (c : Course) (w : World db)
      → Faithful s c existing
      → Step s w (publish_decision db existing s c w).1
  decide-Step existing s c w careful =
      judged-Step existing s c w _ careful (decide_cases existing s c w)
