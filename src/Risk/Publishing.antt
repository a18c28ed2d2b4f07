-- ===== src/Risk/Publishing.antt =====
-- services/risk_engine/service.py: what the two processing loops do with one message. The table of the
-- reservations is DynamoDB: a read, a put under `attribute_not_exists(PK)` and an update under a
-- condition on the decision's id, each atomic. A Fate says whether the caller of a request or of a
-- delivery to Kafka sees the answer. What validate_signal decides is an argument.
pub mod Steps
pub mod Decisions
pub mod Rows
pub mod Commits
mod Tests
use quant_embrace_v.Common.{
  ℕ, ◌+◌, ◌≡◌, Bool, true, false, not, ◌&&◌, Option, none, some, List, [], ◌∷◌, ◌++◌, ◌==◌, is_some,
  if◌then◌else◌,
}
use quant_embrace_v.Execution.Orders.Database.{Fate, answered, lost_before, lost_after}
use quant_embrace_v.Risk.Signals.{Validator, signal_age, signal_expiry, RiskValidationResult}
use quant_embrace_v.Risk.Pipeline.{RiskDecision}

-- `publish_status`: PENDING, PUBLISHED, or a text that is neither; none is the empty text.
pub data PublishStatus : Type 0 where
  pending published unknown : PublishStatus

pub record Reservation : Type 0 where
  pub risk_decision_id : Option ℕ
  pub publish_status : Option PublishStatus

-- The id in a row, against the one that a caller has.
abbrev pub has_id : ℕ → Option Reservation → Bool
has_id id none = false
has_id id (some r) = elim r.risk_decision_id [ some own ↦ own == id | none ↦ false ]

abbrev pub marked : Option Reservation → Option Reservation
marked none = none
marked (some r) = some (record r { publish_status = some published })

pub record DecisionTable : Type 1 where
  pub Table : Type 0
  pub get_item : Table → ℕ → Option Reservation
  pub put_absent : ℕ → Reservation → Table → Bool × Table
  pub mark_item : ℕ → ℕ → Table → Bool × Table
  pub put_absent_reply :
      (s : ℕ) (r : Reservation) (t : Table) → (put_absent s r t).0 ≡ not (is_some (get_item t s))
  pub get_item-put_absent :
      (s : ℕ) (r : Reservation) (t : Table) (j : ℕ)
      → get_item (put_absent s r t).1 j
        ≡ (if not (is_some (get_item t s)) && s == j then some r else get_item t j)
  pub mark_item_reply : (s id : ℕ) (t : Table) → (mark_item s id t).0 ≡ has_id id (get_item t s)
  pub get_item-mark_item :
      (s id : ℕ) (t : Table) (j : ℕ)
      → get_item (mark_item s id t).1 j
        ≡ (if has_id id (get_item t s) && s == j then marked (get_item t j) else get_item t j)

-- A message, as far as the loops look at it.
pub record Message : Type 0 where
  pub signal_id : ℕ
  pub expired : Bool

-- What happens around the processing of one message. `read_seen` and `reread_seen` say whether the two
-- reads of the reservation answer, `dead_lettered` and `retried` whether those topics take the message.
pub record Course : Type 0 where
  pub read_seen : Bool
  pub decision : RiskDecision
  pub reserve_fate : Fate
  pub reread_seen : Bool
  pub publish_fate : Fate
  pub mark_fate : Fate
  pub dead_lettered : Bool
  pub retried : Bool

-- `signals.approved`: the signals with the decisions that they carry, in order.
abbrev pub Topic : Type 0
Topic = List (ℕ × ℕ)

-- Whether a step raises.
pub data Ended : Type 0 where
  done raised : Ended

-- A commit of the message's offset, or not; and whether the message went to another topic.
pub record Handling : Type 0 where
  pub committed : Bool
  pub rerouted : Bool

abbrev pub arrived : Fate → Topic → Topic → Topic
arrived answered before after = after
arrived lost_before before after = before
arrived lost_after before after = after

abbrev pub is_answered : Fate → Bool
is_answered answered = true
is_answered lost_before = false
is_answered lost_after = false

-- The results of a decision begin with one of the two validators of the age.
abbrev pub is_stale : List RiskValidationResult → Bool
is_stale [] = false
is_stale (r ∷ _) = elim r.validator_name [ signal_age ↦ true | signal_expiry ↦ true | _ ↦ false ]

module _ (db : DecisionTable) where
  open db use {Table, get_item, put_absent, mark_item}

  pub record World : Type 0 where
    pub table : Table
    pub topic : Topic

  unfoldable pub mark_risk_decision_published : ℕ → ℕ → Fate → World → Ended × World
  mark_risk_decision_published s id answered w =
      let (held, t) = mark_item s id w.table in
      (if held then done else raised, record w { table = t })
  mark_risk_decision_published s id lost_before w = (raised, w)
  mark_risk_decision_published s id lost_after w =
      (raised, record w { table = (mark_item s id w.table).1 })

  -- `_publish_approved_signal` and `_publish_approved_enriched`: the delivery, then the mark.
  unfoldable pub publish_approved_signal : ℕ → ℕ → Course → World → Ended × World
  publish_approved_signal s id c w =
      let w' = record w { topic = arrived c.publish_fate w.topic (w.topic ++ ((s, id) ∷ [])) } in
      let after = mark_risk_decision_published s id c.mark_fate w' in
      if is_answered c.publish_fate then after else (raised, w')

  unfoldable pub handle_existing_approval_reservation :
      ℕ → Reservation → Course → World → Ended × World
  handle_existing_approval_reservation s r c w = elim r.risk_decision_id [
    | none ↦ (raised, w)
    | some id ↦ elim r.publish_status [
      | none ↦ (done, w)
      | some status ↦ elim status [
        | pending ↦ publish_approved_signal s id c w
        | published ↦ (done, w)
        | unknown ↦ (raised, w)
      ]
    ]
  ]

  -- `_reserve_risk_decision`: whether it wins, or none if it raises.
  unfoldable pub reserve_risk_decision : ℕ → ℕ → Fate → World → Option Bool × World
  reserve_risk_decision s id fate w =
      let r : Reservation = record { risk_decision_id = some id; publish_status = some pending } in
      let (won, t) = put_absent s r w.table in
      elim fate [
        | answered ↦ (some won, record w { table = t })
        | lost_before ↦ (none, w)
        | lost_after ↦ (none, record w { table = t })
      ]

  -- An approved decision, with what is done with a reservation that is there already.
  unfoldable pub publish_decision :
      (Reservation → World → Ended × World) → ℕ → Course → World → Ended × World
  publish_decision existing s c w =
      let (won, w') = reserve_risk_decision s c.decision.risk_decision_id c.reserve_fate w in
      elim won [
        | none ↦ (raised, w')
        | some true ↦ publish_approved_signal s c.decision.risk_decision_id c w'
        | some false ↦ elim (get_item w'.table s) [
          | none ↦ (raised, w')
          | some r ↦ if c.reread_seen then existing r w' else (raised, w')
        ]
      ]

  -- A failure is routed to the retry topic, and committed where that takes it.
  abbrev pub after_pending : Course → Ended × World → Handling × World
  after_pending c (done, w) = (record { committed = true; rerouted = false }, w)
  after_pending c (raised, w) = (record { committed = c.retried; rerouted = c.retried }, w)

  -- A decision that rejects: a stale signal goes to the dead letters, or the step raises.
  abbrev pub reject_pending : Course → World → Handling × World
  reject_pending c w =
      if is_stale c.decision.validator_results
      then (if c.dead_lettered
          then (record { committed = true; rerouted = true }, w)
          else after_pending c (raised, w))
      else (record { committed = true; rerouted = false }, w)

  -- The body of `_kafka_processing_loop`.
  unfoldable pub process_pending : Message → Course → World → Handling × World
  process_pending m c w =
      let existing = λ (r : Reservation).
        λ (w : World). handle_existing_approval_reservation m.signal_id r c w in
      if not c.read_seen then after_pending c (raised, w) else elim (get_item w.table m.signal_id) [
        | some r ↦ after_pending c (existing r w)
        | none ↦
            if m.expired
            then (record { committed = c.dead_lettered; rerouted = c.dead_lettered }, w)
            else if c.decision.approved
            then after_pending c (publish_decision existing m.signal_id c w)
            else reject_pending c w
      ]

  -- What the enriched loop does with a reservation: all but a pending one with an id is suppressed.
  unfoldable pub replay_enriched : ℕ → Reservation → Course → World → Ended × World
  replay_enriched s r c w = elim r.risk_decision_id [
    | none ↦ (done, w)
    | some id ↦ elim r.publish_status [
      | none ↦ (done, w)
      | some status ↦ elim status [
        | pending ↦ publish_approved_signal s id c w
        | published ↦ (done, w)
        | unknown ↦ (done, w)
      ]
    ]
  ]

  -- This loop commits in any case, whether or not the other topic takes the message.
  abbrev pub after_enriched : Course → Ended × World → Handling × World
  after_enriched c (done, w) = (record { committed = true; rerouted = false }, w)
  after_enriched c (raised, w) = (record { committed = true; rerouted = c.retried }, w)

  -- The body of `_enriched_processing_loop`.
  unfoldable pub process_enriched : Message → Course → World → Handling × World
  process_enriched m c w =
      let existing = λ (r : Reservation). λ (w : World). replay_enriched m.signal_id r c w in
      if not c.read_seen
      then after_enriched c (raised, w)
      else elim (get_item w.table m.signal_id) [
        | some r ↦ after_enriched c (existing r w)
        | none ↦
            if m.expired
            then (record { committed = true; rerouted = c.dead_lettered }, w)
            else if c.decision.approved
            then after_enriched c (publish_decision existing m.signal_id c w)
            else (record { committed = true; rerouted = false }, w)
      ]

  -- The loop over the messages of a partition from offset `next`, with the position that is committed:
  -- `commit` of a message commits the offset behind it, whatever became of the messages before.
  unfoldable pub consume : List (Message × Course) → ℕ → ℕ → World → ℕ × World
  consume [] next position w = (position, w)
  consume ((m, c) ∷ rest) next position w =
      let (h, w') = process_pending m c w in
      consume rest (next + 1) (if h.committed then next + 1 else position) w'
