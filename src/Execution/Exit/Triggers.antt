-- ===== src/Execution/Exit/Triggers.antt =====
-- When trade_exit_engine.py fires an exit, and which.
use quant_embrace_v.Common.{
  ℕ, ◌≤◌, ◌<◌, ◌≡◌, ◌⊎◌, Bool, true, false, Option, none, some, is_some, inl, inr, refl, Bool-cases,
  Option-cases, arith, if◌then◌else◌,
}
use quant_embrace_v.Execution.Exit.Models.{
  Direction, long, short, flat, unknown, stop_loss, take_profit, trailing,
}
use quant_embrace_v.Execution.Exit.Positions.{ExitState}
use quant_embrace_v.Execution.Exit.Engine.{
  hits, or_price, Engine, Position, LtpResult, Decision, wait, fire, write_stop, is_trailing,
  get_last_price, evaluate_at, evaluate_exit_conditions, stop_loss_triggered, take_profit_triggered,
  manage_trailing_stop, advance_trailing_stop, activate_trailing_stop,
}

-- The price is at or beyond the stop, against the position.
abbrev pub Stopped : Direction → ℕ → ℕ → Type 0
Stopped long last stop = last ≤ stop
Stopped short last stop = stop ≤ last
Stopped flat last stop = ⊥
Stopped unknown last stop = ⊥

-- The price is at or beyond the target, in favour of the position.
abbrev pub Reached : Direction → ℕ → Option ℕ → Type 0
Reached direction last none = ⊥
Reached long last (some target) = target ≤ last
Reached short last (some target) = last ≤ target
Reached flat last (some target) = ⊥
Reached unknown last (some target) = ⊥

-- The price is strictly on the good side of the stop.
abbrev pub Clear : Direction → ℕ → ℕ → Type 0
Clear long last stop = stop < last
Clear short last stop = last < stop
Clear flat last stop = Unit
Clear unknown last stop = Unit

-- There is no target, or the price has not come to it.
abbrev pub Before : Direction → ℕ → Option ℕ → Type 0
Before direction last none = Unit
Before long last (some target) = last < target
Before short last (some target) = target < last
Before flat last (some target) = Unit
Before unknown last (some target) = Unit

pub stop_cases :
    (d : Direction) (last stop : ℕ)
    → (stop_loss_triggered d last stop ≡ true) × Stopped d last stop
      ⊎ (stop_loss_triggered d last stop ≡ false) × Clear d last stop
unfolding stop_loss_triggered
stop_cases long last stop = ground arith
stop_cases short last stop = ground arith
stop_cases flat last stop = ground arith
stop_cases unknown last stop = ground arith

target_cases :
    (d : Direction) (last target : ℕ)
    → (take_profit_triggered d last target ≡ true) × Reached d last (some target)
      ⊎ (take_profit_triggered d last target ≡ false) × Before d last (some target)
unfolding take_profit_triggered
target_cases long last target = ground arith
target_cases short last target = ground arith
target_cases flat last target = ground arith
target_cases unknown last target = ground arith

hit_cases :
    (d : Direction) (state : Option ExitState) (last : ℕ) (target : Option ℕ)
    → (hits d state last target ≡ true)
        × (is_trailing state ≡ false)
        × Reached d last target
        × (target ≡ some (or_price target last))
      ⊎ (hits d state last target ≡ false) × ((is_trailing state ≡ true) ⊎ Before d last target)
hit_cases d state last none = inr (refl, inr tt)
hit_cases d state last (some target) = elim (target_cases d last target) [
  | inl (e, reached) ↦ elim (Bool-cases (is_trailing state)) [
    | inl t ↦ inr (ground (arith, e, t), inl t)
    | inr t ↦ inl (ground (arith, e, t), t, reached, refl)
  ]
  | inr (e, before) ↦ inr (ground (arith, e), inr before)
]

abbrev pub is_fire : Decision → Bool
is_fire wait = false
is_fire (fire _ _) = true
is_fire (write_stop _) = false

evaluate_at_cases :
    (e : Engine) (p : Position) (last : ℕ)
    → (evaluate_at e p last ≡ fire (if is_trailing p.exit_state then trailing else stop_loss) last)
        × Stopped p.direction last p.stop_price
      ⊎ ((target : ℕ) × (p.take_profit ≡ some target)
          × (evaluate_at e p last ≡ fire take_profit target))
        × Clear p.direction last p.stop_price
        × (is_trailing p.exit_state ≡ false)
        × Reached p.direction last p.take_profit
      ⊎ (is_fire (evaluate_at e p last) ≡ false)
        × Clear p.direction last p.stop_price
        × ((is_trailing p.exit_state ≡ true) ⊎ Before p.direction last p.take_profit)
unfolding evaluate_at manage_trailing_stop advance_trailing_stop activate_trailing_stop
evaluate_at_cases e p last = elim (stop_cases p.direction last p.stop_price) [
  | inl (s, stopped) ↦ inl (ground (arith, s), stopped)
  | inr (s, clear) ↦ elim (hit_cases p.direction p.exit_state last p.take_profit) [
    | inl (h, t, reached, q) ↦
        inr (inl ((or_price p.take_profit last, q, ground (arith, s, h)), clear, t, reached))
    | inr (h, rest) ↦ inr (inr (ground (arith, s, h), clear, rest))
  ]
]

evaluate_waits :
    (e : Engine) (ltp : Option LtpResult) (p : Position)
    → (is_some p.exit_order_id ≡ true) ⊎ (get_last_price e ltp ≡ none)
    → evaluate_exit_conditions e ltp p ≡ wait
unfolding evaluate_exit_conditions
evaluate_waits e ltp p h = ground arith

evaluate_priced :
    (e : Engine) (ltp : Option LtpResult) (p : Position) (last : ℕ)
    → p.exit_order_id ≡ none
    → get_last_price e ltp ≡ some last
    → evaluate_exit_conditions e ltp p ≡ evaluate_at e p last
unfolding evaluate_exit_conditions
evaluate_priced e ltp p last h q = ground arith

-- The rules of an exit, complete: with an exit in flight, or with no price that may be used, the
-- engine waits. Otherwise it fires the stop if the price has come to it, under the name of the
-- trailing stop once that is active; else the target, at the target's price, if the price has come
-- to it and no trailing stop is active; else no exit.
pub evaluate_follows_rules :
    (e : Engine) (ltp : Option LtpResult) (p : Position)
    → let d = evaluate_exit_conditions e ltp p in
      (d ≡ wait) × ((is_some p.exit_order_id ≡ true) ⊎ (get_last_price e ltp ≡ none))
      ⊎ (p.exit_order_id ≡ none)
        × ((last : ℕ) × (get_last_price e ltp ≡ some last)
            × ((d ≡ fire (if is_trailing p.exit_state then trailing else stop_loss) last)
                  × Stopped p.direction last p.stop_price
                ⊎ ((target : ℕ) × (p.take_profit ≡ some target) × (d ≡ fire take_profit target))
                  × Clear p.direction last p.stop_price
                  × (is_trailing p.exit_state ≡ false)
                  × Reached p.direction last p.take_profit
                ⊎ (is_fire d ≡ false)
                  × Clear p.direction last p.stop_price
                  × ((is_trailing p.exit_state ≡ true) ⊎ Before p.direction last p.take_profit)))
evaluate_follows_rules e ltp p = elim (Option-cases p.exit_order_id) [
  | inr (held, h) ↦
      let locked : is_some p.exit_order_id ≡ true = ground (arith, h) in
      inl (evaluate_waits e ltp p (inl locked), inl locked)
  | inl h ↦ elim (Option-cases (get_last_price e ltp)) [
    | inl q ↦ inl (evaluate_waits e ltp p (inr q), inr q)
    | inr (last, q) ↦
        inr (h, (last, q, rw (evaluate_priced e ltp p last h q) (evaluate_at_cases e p last)))
  ]
]
