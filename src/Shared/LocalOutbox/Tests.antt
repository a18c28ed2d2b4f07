-- ===== src/Shared/LocalOutbox/Tests.antt =====
-- local_outbox.py: three messages for two places, a send that fails, a delete that fails and a commit that fails.
use quant_embrace_v.Common.{◌≤◌, ◌≡◌, refl, List, [], ◌∷◌, length}
use quant_embrace_v.Shared.LocalOutbox.{
  new, open_, close, enqueue, delivered, refused, unconfirmed, uncommitted, delete, limited,
  drain_rows, drain_batch,
}
use quant_embrace_v.Shared.LocalOutbox.Account.{
  Event, opened, closed, enqueued, drained, fresh, happen, Accounts,
}
use quant_embrace_v.Shared.LocalOutbox.Delivery.{happen_all, all_doubts, accepted_goes_out}

abbrev events : List Event
events =
    opened
    ∷ enqueued 5
    ∷ enqueued 6
    ∷ enqueued 7
    ∷ drained (refused ∷ [])
    ∷ drained (delivered ∷ unconfirmed ∷ [])
    ∷ drained (uncommitted ∷ [])
    ∷ closed
    ∷ opened
    ∷ drained (delivered ∷ [])
    ∷ []

six_goes_out_again : (happen_all events (fresh 2)).topic ≡ 5 ∷ 6 ∷ 6 ∷ 6 ∷ []
unfolding happen_all happen new open_ close enqueue delete limited drain_rows drain_batch
six_goes_out_again = refl

seven_is_refused : (happen_all events (fresh 2)).accepted ≡ 5 ∷ 6 ∷ []
unfolding happen_all happen new open_ close enqueue delete limited drain_rows drain_batch
seven_is_refused = refl

accepted_goes_out_example :
    let w = happen_all events (fresh 2) in
    Accounts w.accepted w.topic (all_doubts events) w.box.rows
    × Accounts w.accepted w.topic (all_doubts events) w.box.saved
    × (length w.box.rows ≤ 2)
    × (length w.box.saved ≤ 2)
accepted_goes_out_example = accepted_goes_out 2 events
