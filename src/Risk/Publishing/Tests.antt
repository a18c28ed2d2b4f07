-- ===== src/Risk/Publishing/Tests.antt =====
-- service.py, the processing loops: an approval whose mark is lost, its replay, and an unread message.
use quant_embrace_v.Common.{
  ℕ, ◌≡◌, ◌⊎◌, refl, true, false, not, ◌&&◌, Option, none, some, List, [], ◌∷◌, ◌==◌, inl, inr,
  is_some, if◌then◌else◌,
}
use quant_embrace_v.Execution.Orders.Database.{answered, lost_before}
use quant_embrace_v.Risk.Publishing.{
  Reservation, has_id, marked, DecisionTable, Message, Course, World, mark_risk_decision_published,
  publish_approved_signal, handle_existing_approval_reservation, reserve_risk_decision,
  publish_decision, process_pending, process_enriched, consume,
}
use quant_embrace_v.Risk.Publishing.Decisions.{
  Loop, pending_loop, enriched_loop, process_all, one_decision_per_signal,
}
use quant_embrace_v.Risk.Publishing.Rows.{IsOut, RowsKept}
use quant_embrace_v.Risk.Publishing.Commits.{approved_is_accounted, skipped_message_lost}

abbrev Rows : Type 0
Rows = ℕ → Option Reservation

abbrev memory : DecisionTable
memory = record {
  Table = Rows;
  get_item = λ t s. t s;
  put_absent =
      λ s r t. (not (is_some (t s)), λ j. if not (is_some (t s)) && s == j then some r else t j);
  mark_item =
      λ s id t. (has_id id (t s), λ j. if has_id id (t s) && s == j then marked (t j) else t j);
  put_absent_reply = λ s r t. refl;
  get_item-put_absent = λ s r t j. refl;
  mark_item_reply = λ s id t. refl;
  get_item-mark_item = λ s id t j. refl;
}

abbrev nothing : World memory
nothing = record { table = λ s. none; topic = [] }

abbrev message : Message
message = record { signal_id = 5; expired = false }

abbrev course_of : ℕ → Course
course_of id = record {
  read_seen = true;
  decision = record {
    risk_decision_id = id;
    signal_id = 5;
    approved = true;
    validator_results = [];
  };
  reserve_fate = answered;
  reread_seen = true;
  publish_fate = answered;
  mark_fate = answered;
  dead_lettered = false;
  retried = false;
}

abbrev unmarked : Course
unmarked = record (course_of 70) { mark_fate = lost_before }

abbrev events : List (Loop × Message × Course)
events =
    (enriched_loop, message, unmarked)
    ∷ (pending_loop, message, course_of 71)
    ∷ (pending_loop, message, course_of 72)
    ∷ []

published_twice : (process_all memory events nothing).topic ≡ (5, 70) ∷ (5, 70) ∷ []
unfolding process_all process_pending process_enriched publish_decision reserve_risk_decision
    publish_approved_signal mark_risk_decision_published handle_existing_approval_reservation
published_twice = refl

one_decision_per_signal_example : ◌≡◌ {A = ℕ} 70 70
unfolding process_all process_pending process_enriched publish_decision reserve_risk_decision
    publish_approved_signal mark_risk_decision_published handle_existing_approval_reservation
one_decision_per_signal_example =
    one_decision_per_signal memory events nothing 5 70 70 tt (inl refl) (inr (inl refl))

nothing_kept : RowsKept memory nothing
nothing_kept s r h = cc

approved_is_accounted_example :
    let (h, w) =
      process_pending memory message
        (course_of 71)
        (process_all memory ((enriched_loop, message, unmarked) ∷ []) nothing) in
    IsOut 5 (process_all memory ((pending_loop, message, course_of 72) ∷ []) w).topic
    ⊎ ((h.rerouted ≡ true) ⊎ ((h.committed ≡ false) × ((false ≡ false) ⊎ (false ≡ false))))
approved_is_accounted_example =
    approved_is_accounted memory ((enriched_loop, message, unmarked) ∷ [])
      ((pending_loop, message, course_of 72) ∷ []) nothing message (course_of 71) nothing_kept refl

abbrev unread : Course
unread = record (course_of 73) { read_seen = false }

abbrev next_one : Message
next_one = record { signal_id = 6; expired = false }

next_commits : (process_pending memory next_one (course_of 74) nothing).0.committed ≡ true
unfolding process_pending publish_decision reserve_risk_decision publish_approved_signal
    mark_risk_decision_published
next_commits = refl

skipped_message_lost_example :
    let both = consume memory ((message, unread) ∷ (next_one, course_of 74) ∷ []) 40 40 nothing in
    (both ≡ consume memory ((next_one, course_of 74) ∷ []) 41 40 nothing)
    × (both.0 ≡ 42)
    × (process_enriched memory message unread nothing
        ≡ (record { committed = true; rerouted = false }, nothing))
skipped_message_lost_example =
    skipped_message_lost memory message next_one unread (course_of 74) 40 40 nothing refl refl
      next_commits
