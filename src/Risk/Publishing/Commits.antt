-- ===== src/Risk/Publishing/Commits.antt =====
-- service.py, the processing loops: which messages are committed.
use quant_embrace_v.Common.{
  ℕ, ◌+◌, ◌≡◌, ◌⊎◌, inl, inr, refl, [], ◌∷◌, true, false, some, List, arith, Bool-cases,
  Option-cases,
}
use quant_embrace_v.Risk.Publishing.{
  Reservation, DecisionTable, Message, Course, Ended, done, raised, World, publish_approved_signal,
  handle_existing_approval_reservation, publish_decision, process_pending, process_enriched,
  after_pending, consume,
}
use quant_embrace_v.Risk.Publishing.Steps.{
  Fate-cases, delivered, publish_answered, publish_unseen, publish_lost, put_world, own_row,
  Verdict, Step, decide_cases,
}
use quant_embrace_v.Risk.Publishing.Decisions.{Loop, process, process-Step, process_all}
use quant_embrace_v.Risk.Publishing.Rows.{
  IsOut, last-Published, later-Published, mark_keeps_topic, RowKept, RowsKept, process_all-RowsKept,
}

-- A step that raises is not done.
never_done : {A : Type 0} → raised ≡ done → A
never_done h = cc

never : {A : Type 0} → true ≡ false → A
never h = cc

module _ (db : DecisionTable) where
  open db use {Table, get_item, put_absent, put_absent_reply, get_item-put_absent}

  publish_done :
      (s id : ℕ) (c : Course) (w : World db)
      → (publish_approved_signal db s id c w).0 ≡ done
      → IsOut s (publish_approved_signal db s id c w).1.topic
  publish_done s id c w h = elim (Fate-cases db c.publish_fate) [
    | inl e ↦ (
      id,
      rw
          (
            publish_answered db s id c w e,
            mark_keeps_topic db s id c.mark_fate (delivered db s id w),
          )
          (last-Published s id w.topic),
    )
    | inr rest ↦ elim rest [
      | inl e ↦ never_done (ground (arith, h, publish_lost db s id c w e))
      | inr e ↦ never_done (ground (arith, h, publish_unseen db s id c w e))
    ]
  ]

  handle_done :
      (s : ℕ) (r : Reservation) (c : Course) (w : World db)
      → RowKept s w.topic r
      → (handle_existing_approval_reservation db s r c w).0 ≡ done
      → IsOut s (handle_existing_approval_reservation db s r c w).1.topic
  unfolding handle_existing_approval_reservation
  handle_done s r c w kept h = elim (Option-cases r.risk_decision_id) [
    | inl e ↦ never_done (ground (arith, e, h))
    | inr (id, e) ↦ elim kept [
      | inl d ↦
          let same : handle_existing_approval_reservation db s r c w
              ≡ publish_approved_signal db s id c w =
            ground (arith, e, d) in
          rw same (publish_done s id c w (rw same at h))
      | inr (d, out) ↦
          let same : handle_existing_approval_reservation db s r c w ≡ (done, w) =
            ground (arith, e, d) in
          rw same out
    ]
  ]

  lost_row :
      (s : ℕ) (c : Course) (w : World db) (r : Reservation)
      → (put_absent s (own_row db c) w.table).0 ≡ false
      → get_item (put_world db s c w).table s ≡ some r
      → get_item w.table s ≡ some r
  lost_row s c w r lost e = ground (
    arith,
    lost,
    e,
    put_absent_reply s (own_row db c) w.table,
    get_item-put_absent s (own_row db c) w.table s,
  )

  abbrev handled : ℕ → Course → Reservation → World db → Ended × World db
  handled s c r w = handle_existing_approval_reservation db s r c w

  judged_done :
      (s : ℕ) (c : Course) (w : World db) (result : Ended × World db)
      → Verdict db (handled s c) s c w result
      → RowsKept db w
      → result.0 ≡ done
      → IsOut s result.1.topic
  judged_done s c w result (inl (inl same)) kept h = never_done (ground (arith, same, h))
  judged_done s c w result (inl (inr same)) kept h = never_done (ground (arith, same, h))
  judged_done s c w result (inr (inl (own, same))) kept h =
      rw same (publish_done s c.decision.risk_decision_id c (put_world db s c w) (rw same at h))
  judged_done s c w result (inr (inr (r, e, lost, same))) kept h =
      rw same
        (handle_done s r c (put_world db s c w) (kept s r (lost_row s c w r lost e)) (rw same at h))

  -- A message that the loop commits as its own work ended without an error.
  own_commit :
      (c : Course) (x : Ended × World db)
      → (after_pending db c x).0.committed ≡ true
      → (after_pending db c x).0.rerouted ≡ false
      → (x.0 ≡ done) × ((after_pending db c x).1 ≡ x.1)
  own_commit c (done, w) h quiet = (refl, refl)
  own_commit c (raised, w) h quiet = ground (arith, h, quiet)

  commit-IsOut :
      (m : Message) (c : Course) (w : World db)
      → RowsKept db w
      → c.decision.approved ≡ true
      → (process_pending db m c w).0.committed ≡ true
      → (process_pending db m c w).0.rerouted ≡ false
      → IsOut m.signal_id (process_pending db m c w).1.topic
  unfolding process_pending
  commit-IsOut m c w kept approved h quiet = elim (Bool-cases c.read_seen) [
    | inr unseen ↦ never (ground (arith, unseen, h, quiet))
    | inl seen ↦ elim (Option-cases (get_item w.table m.signal_id)) [
      | inr (r, e) ↦
          let x = handled m.signal_id c r w in
          let same : process_pending db m c w ≡ after_pending db c x = ground (arith, seen, e) in
          let (ended, ends) = own_commit c x (rw same at h) (rw same at quiet) in
          rw (same, ends) (handle_done m.signal_id r c w (kept m.signal_id r e) ended)
      | inl e ↦ elim (Bool-cases m.expired) [
        | inl late ↦ never (ground (arith, seen, e, late, h, quiet))
        | inr timely ↦
            let x = publish_decision db (handled m.signal_id c) m.signal_id c w in
            let same : process_pending db m c w ≡ after_pending db c x =
              ground (arith, seen, e, timely, approved) in
            let (ended, ends) = own_commit c x (rw same at h) (rw same at quiet) in
            rw (same, ends)
              (judged_done m.signal_id c w x
                (decide_cases db (handled m.signal_id c) m.signal_id c w) kept ended)
      ]
    ]
  ]

  step-IsOut : (s s' : ℕ) (w w' : World db) → Step db s' w w' → IsOut s w.topic → IsOut s w'.topic
  step-IsOut s s' w w' (keeps, inl same) out = rw same out
  step-IsOut s s' w w' (keeps, inr (id', same, own)) (id, out) =
      rw same (id, later-Published s id w.topic ((s', id') ∷ []) out)

  process_all-IsOut :
      (events : List (Loop × Message × Course)) (s : ℕ) (w : World db)
      → IsOut s w.topic
      → IsOut s (process_all db events w).topic
  unfolding process_all
  process_all-IsOut [] s w out = out
  process_all-IsOut ((loop, m, c) ∷ events) s w out =
      process_all-IsOut events s (process db loop m c w).1
        (step-IsOut s m.signal_id w (process db loop m c w).1 (process-Step db loop m c w) out)

  after_refused :
      (c : Course) (x : Ended × World db)
      → (after_pending db c x).0.committed ≡ false
      → c.retried ≡ false
  after_refused c (done, w) h = cc
  after_refused c (raised, w) h = h

  -- A message that is left uncommitted was refused by the topic that it should have gone to.
  uncommitted_refused :
      (m : Message) (c : Course) (w : World db)
      → c.decision.approved ≡ true
      → (process_pending db m c w).0.committed ≡ false
      → (c.retried ≡ false) ⊎ (c.dead_lettered ≡ false)
  unfolding process_pending
  uncommitted_refused m c w approved h = elim (Bool-cases c.read_seen) [
    | inr unseen ↦ inl (ground (arith, unseen, h))
    | inl seen ↦ elim (Option-cases (get_item w.table m.signal_id)) [
      | inr (r, e) ↦
          let x = handled m.signal_id c r w in
          let same : process_pending db m c w ≡ after_pending db c x = ground (arith, seen, e) in
          inl (after_refused c x (rw same at h))
      | inl e ↦ elim (Bool-cases m.expired) [
        | inl late ↦ inr (ground (arith, seen, e, late, h))
        | inr timely ↦
            let x = publish_decision db (handled m.signal_id c) m.signal_id c w in
            let same : process_pending db m c w ≡ after_pending db c x =
              ground (arith, seen, e, timely, approved) in
            inl (after_refused c x (rw same at h))
      ]
    ]
  ]

  -- What the fallback loop makes of a message with an approved decision, after and before any messages
  -- of both loops, from a start where every reservation is pending, or published with its signal in the
  -- topic: at the end the signal stands in the topic of the approved signals, or the message was sent
  -- to the retry or the dead-letter topic, or one of these refused it and its own turn commits nothing.
  pub approved_is_accounted :
      (before after : List (Loop × Message × Course)) (start : World db) (m : Message) (c : Course)
      → RowsKept db start
      → c.decision.approved ≡ true
      → let (h, w) = process_pending db m c (process_all db before start) in
        IsOut m.signal_id (process_all db after w).topic
        ⊎ ((h.rerouted ≡ true)
            ⊎ ((h.committed ≡ false) × ((c.retried ≡ false) ⊎ (c.dead_lettered ≡ false))))
  approved_is_accounted before after start m c kept approved =
      let w = process_all db before start in
      let (h, w') = process_pending db m c w in
      elim (Bool-cases h.rerouted) [
        | inl away ↦ inr (inl away)
        | inr quiet ↦ elim (Bool-cases h.committed) [
          | inr uncommitted ↦
              inr (inr (uncommitted, uncommitted_refused m c w approved uncommitted))
          | inl committed ↦ inl (
              process_all-IsOut after m.signal_id w' (
                commit-IsOut m c w (process_all-RowsKept db before start kept) approved committed
                  quiet))
        ]
      ]

  -- Where the first read of a message fails and the retry topic refuses it, and the fallback loop
  -- commits the next message, the position that it commits is behind both, and the run is as if the
  -- first message had never been there, but for its offset: it is lost. The enriched loop commits such
  -- a message at once, and nothing else.
  pub skipped_message_lost :
      (m m' : Message) (c c' : Course) (next position : ℕ) (w : World db)
      → c.read_seen ≡ false
      → c.retried ≡ false
      → (process_pending db m' c' w).0.committed ≡ true
      → (consume db ((m, c) ∷ (m', c') ∷ []) next position w
          ≡ consume db ((m', c') ∷ []) (next + 1) position w)
        × ((consume db ((m, c) ∷ (m', c') ∷ []) next position w).0 ≡ next + 2)
        × (process_enriched db m c w ≡ (record { committed = true; rerouted = false }, w))
  unfolding consume process_pending process_enriched
  skipped_message_lost m m' c c' next position w unread unrouted commits = (
    ground (arith, unread, unrouted),
    ground (arith, unread, unrouted, commits),
    ground (arith, unread, unrouted),
  )
