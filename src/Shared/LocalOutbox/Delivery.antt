-- ===== src/Shared/LocalOutbox/Delivery.antt =====
-- local_outbox.py: what goes out over enqueues, drains and reconnections.
use quant_embrace_v.Common.{
  ℕ, ◌+◌, ◌≤◌, ◌≡◌, inl, inr, refl, sym, subst, Bool-cases, List, [], ◌∷◌, arith, length,
}
use quant_embrace_v.Shared.LocalOutbox.{new, open_, close, limited}
use quant_embrace_v.Shared.LocalOutbox.Batch.{doubts, beyond, ends, limited-beyond}
use quant_embrace_v.Shared.LocalOutbox.Account.{
  Event, opened, closed, enqueued, drained, World, fresh, happen, Accounts, IsSound,
  enqueued-IsSound, drained_world-IsSound, drained_eq, closed_drain-IsSound,
}

unfoldable pub happen_all : List Event → World → World
happen_all [] w = w
happen_all (e ∷ es) w = happen_all es (happen e w)

abbrev pub all_doubts : List Event → ℕ
all_doubts [] = 0
all_doubts (opened ∷ es) = all_doubts es
all_doubts (closed ∷ es) = all_doubts es
all_doubts (enqueued message ∷ es) = all_doubts es
all_doubts (drained os ∷ es) = doubts os + all_doubts es

happen-IsSound :
    (limit n : ℕ) (e : Event) (w : World)
    → IsSound limit n w
    → IsSound limit (n + all_doubts (e ∷ [])) (happen e w)
unfolding happen open_ close
happen-IsSound limit n opened w (view, committed, table, table', same) =
    subst (λ k. IsSound limit k (happen opened w)) (omega arith)
      (committed, committed, table', table', same)
happen-IsSound limit n closed w (view, committed, table, table', same) =
    subst (λ k. IsSound limit k (happen closed w)) (omega arith)
      (committed, committed, table', table', same)
happen-IsSound limit n (enqueued message) w h =
    subst (λ k. IsSound limit k (happen (enqueued message) w)) (omega arith)
      (enqueued-IsSound limit n message w h)
happen-IsSound limit n (drained os) w h =
    let rs = limited 100 w.box.rows in
    let rest = beyond 100 w.box.rows in
    let split = sym (limited-beyond 100 w.box.rows) in
    let sound : IsSound limit (n + doubts os) (happen (drained os) w) =
      elim (Bool-cases w.box.is_open) [
        | inl ready ↦
            subst (IsSound limit (n + doubts os)) (sym (drained_eq os w ready h.2.1))
              (drained_world-IsSound limit n rs rest os w split h)
        | inr shut ↦ closed_drain-IsSound limit n os w shut h
      ] in
    subst (λ k. IsSound limit k (happen (drained os) w)) (omega arith) sound

doubts-add :
    (e : Event) (es : List Event) → all_doubts (e ∷ es) ≡ all_doubts (e ∷ []) + all_doubts es
doubts-add opened es = omega arith
doubts-add closed es = omega arith
doubts-add (enqueued message) es = omega arith
doubts-add (drained os) es = omega arith

happen_all-IsSound :
    (limit n : ℕ) (es : List Event) (w : World)
    → IsSound limit n w
    → IsSound limit (n + all_doubts es) (happen_all es w)
unfolding happen_all
happen_all-IsSound limit n [] w h = subst (λ k. IsSound limit k w) (omega arith) h
happen_all-IsSound limit n (e ∷ es) w h =
    subst (λ k. IsSound limit k (happen_all es (happen e w))) (omega (arith, doubts-add e es))
      (happen_all-IsSound limit (n + all_doubts (e ∷ [])) es (happen e w)
        (happen-IsSound limit n e w h))

-- Over any enqueues, drains, closings and openings of a fresh outbox, a message that `enqueue` answers
-- True for is never lost or overtaken: the table, as the connection sees it and as it is committed,
-- holds the accepted messages but for the first ones, in their order, and Kafka has those, in that
-- order. A message is out once more only where a send or a delete raised after it went out, or the
-- commit of its delete raised; and neither table holds more rows than the cap.
pub accepted_goes_out :
    (limit : ℕ) (es : List Event)
    → let w = happen_all es (fresh limit) in
      Accounts w.accepted w.topic (all_doubts es) w.box.rows
      × Accounts w.accepted w.topic (all_doubts es) w.box.saved
      × (length w.box.rows ≤ limit)
      × (length w.box.saved ≤ limit)
unfolding new
accepted_goes_out limit es =
    let none_yet : Accounts [] [] 0 [] = ([], refl, ends, omega arith) in
    let start : IsSound limit 0 (fresh limit) =
      (none_yet, none_yet, (omega arith, tt), (omega arith, tt), refl) in
    let sound : IsSound limit (all_doubts es) (happen_all es (fresh limit)) =
      subst (λ k. IsSound limit k (happen_all es (fresh limit))) (omega arith)
        (happen_all-IsSound limit 0 es (fresh limit) start) in
    (sound.0, sound.1, sound.2.0, sound.3.0)
