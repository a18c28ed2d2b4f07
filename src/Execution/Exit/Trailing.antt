-- ===== src/Execution/Exit/Trailing.antt =====
-- What trade_exit_engine.py makes of the stop of a position.
use quant_embrace_v.Common.{
  sym, ◌∙◌, zero, suc, ap, leb, ℕ, ◌+◌, ◌-◌, ◌*◌, ◌/◌, ◌≤◌, ◌<◌, ◌≡◌, ◌⊎◌, inl, inr, refl, true,
  false, Option, none, some, List, [], ◌∷◌, arith, Bool-cases, Option-cases,
}
use quant_embrace_v.Execution.Orders.Database.{Fate}
use quant_embrace_v.Execution.Exit.Models.{Direction, long, short, flat, unknown}
use quant_embrace_v.Execution.Exit.Positions.{Row, not_flat, PositionTable}
use quant_embrace_v.Execution.Exit.Engine.{
  carry_out, Engine, Position, LtpResult, Decision, wait, fire, write_stop, is_trailing,
  get_last_price, evaluate_at, evaluate_exit_conditions, stop_loss_triggered, manage_trailing_stop,
  advance_trailing_stop, compute_trailing_stop, activate_trailing_stop, parse_position, scanned,
  check_position, write_trailing_stop, set_trailing,
}
use quant_embrace_v.Execution.Exit.Triggers.{Clear, stop_cases}

-- The second stop risks no more than the first.
abbrev pub Tighter : Direction → ℕ → ℕ → Type 0
Tighter long stop stop' = stop ≤ stop'
Tighter short stop stop' = stop' ≤ stop
Tighter flat stop stop' = stop ≡ stop'
Tighter unknown stop stop' = stop ≡ stop'

compute-Tighter :
    (d : Direction) (last stop pct : ℕ) → Tighter d stop (compute_trailing_stop d last stop pct)
unfolding compute_trailing_stop
compute-Tighter long last stop pct = ground arith
compute-Tighter short last stop pct = ground arith
compute-Tighter flat last stop pct = refl
compute-Tighter unknown last stop pct = refl

parts_of : (last d pct : ℕ) → d + pct ≡ 10000 → last * d + last * pct ≡ last * 10000
parts_of last d pct e =
    let whole : last * (d + pct) ≡ last * 10000 = ap (λ n. last * n) e in omega (arith, whole)

below_candidate : (last pct : ℕ) → 10000 ≤ last * pct → last * (10000 - pct) / 10000 < last
below_candidate zero pct h = ground arith
below_candidate (suc last) pct h = elim (Bool-cases (leb pct 10000)) [
  | inl e ↦ ground (arith, parts_of (suc last) (10000 - pct) pct (ground arith))
  | inr e ↦ let none_left : 10000 - pct ≡ 0 = ground arith in rw none_left (ground arith)
]

above_candidate : (last pct : ℕ) → 10000 ≤ last * pct → last < last * (10000 + pct) / 10000
above_candidate last pct h = ground arith

decided-Tighter :
    (e : Engine) (p : Position) (last stop : ℕ)
    → evaluate_at e p last ≡ write_stop stop
    → Tighter p.direction p.stop_price stop
unfolding evaluate_at manage_trailing_stop advance_trailing_stop activate_trailing_stop
decided-Tighter e p last stop h =
    ground (arith, compute-Tighter p.direction last p.stop_price e.trailing_stop_pct)

evaluate-Tighter :
    (e : Engine) (ltp : Option LtpResult) (p : Position) (stop : ℕ)
    → evaluate_exit_conditions e ltp p ≡ write_stop stop
    → Tighter p.direction p.stop_price stop
unfolding evaluate_exit_conditions
evaluate-Tighter e ltp p stop h = elim (Option-cases (get_last_price e ltp)) [
  | inl q ↦ ground (arith, q)
  | inr (last, q) ↦ ground (arith, q, decided-Tighter e p last stop)
]

scanned_reads :
    (r : Row) (s : ℕ) (p : Position)
    → r.stop_price ≡ some s
    → scanned (some r) ≡ some p
    → (p.direction ≡ r.direction) × (p.stop_price ≡ s) × (not_flat r ≡ true)
unfolding scanned parse_position
scanned_reads r s p h e = ground arith

module _ (db : PositionTable) where
  open db use {Table, get_item, get_item-update_if}

  write_cases :
      (symbol stop : ℕ) (fate : Fate) (t : Table) (r : Row)
      → get_item t symbol ≡ some r
      → let after = get_item (write_trailing_stop db symbol stop fate t) symbol in
        (after ≡ some r) ⊎ (after ≡ some (set_trailing stop r))
  unfolding write_trailing_stop
  write_cases symbol stop fate t r h =
      ground (arith, get_item-update_if symbol not_flat (set_trailing stop) t symbol)

  carry_out_cases :
      (symbol : ℕ) (fate : Fate) (d : Decision) (t : Table) (r : Row)
      → get_item t symbol ≡ some r
      → let after = get_item (carry_out db symbol fate d t) symbol in
        (after ≡ some r)
        ⊎ ((stop : ℕ) × (d ≡ write_stop stop) × (after ≡ some (set_trailing stop r)))
  unfolding carry_out
  carry_out_cases symbol fate wait t r h = inl h
  carry_out_cases symbol fate (fire _ _) t r h = inl h
  carry_out_cases symbol fate (write_stop stop) t r h = elim (write_cases symbol stop fate t r h) [
    | inl e ↦ inl e
    | inr e ↦ inr (stop, refl, e)
  ]

  check_carries_out :
      (e : Engine) (symbol : ℕ) (ltp : Option LtpResult) (fate : Fate) (t : Table) (p : Position)
      → scanned (get_item t symbol) ≡ some p
      → check_position db e symbol ltp fate t
        ≡ carry_out db symbol fate (evaluate_exit_conditions e ltp p) t
  unfolding check_position
  check_carries_out e symbol ltp fate t p h = ground arith

  check_passes :
      (e : Engine) (symbol : ℕ) (ltp : Option LtpResult) (fate : Fate) (t : Table)
      → scanned (get_item t symbol) ≡ none
      → check_position db e symbol ltp fate t ≡ t
  unfolding check_position
  check_passes e symbol ltp fate t h = ground arith

  check_cases :
      (e : Engine) (symbol : ℕ) (ltp : Option LtpResult) (fate : Fate) (t : Table) (r : Row) (s : ℕ)
      → get_item t symbol ≡ some r
      → r.stop_price ≡ some s
      → let after = get_item (check_position db e symbol ltp fate t) symbol in
        (after ≡ some r)
        ⊎ ((stop : ℕ) × (after ≡ some (set_trailing stop r)) × Tighter r.direction s stop)
  check_cases e symbol ltp fate t r s h q = elim (Option-cases (scanned (get_item t symbol))) [
    | inl f ↦ inl (rw (check_passes e symbol ltp fate t f) h)
    | inr (p, f) ↦
        let d = evaluate_exit_conditions e ltp p in
        rw (check_carries_out e symbol ltp fate t p f) (elim (carry_out_cases symbol fate d t r h) [
          | inl same ↦ inl same
          | inr (stop, decided, set) ↦
              let (direction, old, _) = scanned_reads r s p q (ap scanned (sym h) ∙ f) in
              inr (stop, set, rw (direction, old) at (evaluate-Tighter e ltp p stop decided))
        ])
  ]

  -- Cycles for one symbol, one after the other, whatever prices they see and whether or not their
  -- writes arrive.
  unfoldable pub check_all : Engine → ℕ → List (Option LtpResult × Fate) → Table → Table
  check_all e symbol [] t = t
  check_all e symbol ((ltp, fate) ∷ cycles) t =
      check_all e symbol cycles (check_position db e symbol ltp fate t)

  Tighter-trans : (d : Direction) (a b c : ℕ) → Tighter d a b → Tighter d b c → Tighter d a c
  Tighter-trans long a b c h k = ground arith
  Tighter-trans short a b c h k = ground arith
  Tighter-trans flat a b c h k = h ∙ k
  Tighter-trans unknown a b c h k = h ∙ k

  Tighter-refl : (d : Direction) (a : ℕ) → Tighter d a a
  Tighter-refl long a = ground arith
  Tighter-refl short a = ground arith
  Tighter-refl flat a = refl
  Tighter-refl unknown a = refl

  -- The engine's own writes only ever tighten the stop of a position, over any number of cycles
  -- with any prices: the row stays, with its direction, its quantity and its exit order, a stop of
  -- a long position only rises and of a short one only falls, and a trailing stop stays active.
  pub stop_only_tightens :
      (e : Engine) (symbol : ℕ) (cycles : List (Option LtpResult × Fate)) (t : Table) (r : Row)
      (s : ℕ)
      → get_item t symbol ≡ some r
      → r.stop_price ≡ some s
      → (r' : Row) × ((s' : ℕ) × (get_item (check_all e symbol cycles t) symbol ≡ some r')
          × (r'.stop_price ≡ some s')
          × Tighter r.direction s s'
          × (r'.direction ≡ r.direction)
          × (r'.quantity ≡ r.quantity)
          × (r'.exit_order_id ≡ r.exit_order_id)
          × ((is_trailing r.exit_state ≡ false) ⊎ (is_trailing r'.exit_state ≡ true)))
  unfolding check_all
  stop_only_tightens e symbol [] t r s h q =
      (r, (s, h, q, Tighter-refl r.direction s, refl, refl, refl, ground arith))
  stop_only_tightens e symbol ((ltp, fate) ∷ cycles) t r s h q =
      let next = check_position db e symbol ltp fate t in
      elim (check_cases e symbol ltp fate t r s h q) [
        | inl same ↦ stop_only_tightens e symbol cycles next r s same q
        | inr (stop, set, tighter) ↦
            let (r', (s', h', q', tighter', direction, quantity, exit, active)) =
              stop_only_tightens e symbol cycles next (set_trailing stop r) stop set refl in
            (
              r',
              (
                s',
                h',
                q',
                Tighter-trans r.direction s stop s' tighter tighter',
                direction,
                quantity,
                exit,
                inr (ground (arith, active)),
              ),
            )
      ]

compute-Clear :
    (d : Direction) (last stop pct : ℕ)
    → Clear d last stop
    → 10000 ≤ last * pct
    → Clear d last (compute_trailing_stop d last stop pct)
unfolding compute_trailing_stop
compute-Clear long last stop pct clear wide = ground (arith, below_candidate last pct wide)
compute-Clear short last stop pct clear wide = ground (arith, above_candidate last pct wide)
compute-Clear flat last stop pct clear wide = tt
compute-Clear unknown last stop pct clear wide = tt

decided_is_computed :
    (e : Engine) (p : Position) (last stop : ℕ)
    → evaluate_at e p last ≡ write_stop stop
    → (stop ≡ compute_trailing_stop p.direction last p.stop_price e.trailing_stop_pct)
      × (stop_loss_triggered p.direction last p.stop_price ≡ false)
unfolding evaluate_at manage_trailing_stop advance_trailing_stop activate_trailing_stop
decided_is_computed e p last stop h = ground arith

-- A stop that the engine moves does not fire at the price it was moved at, if the trailing
-- distance is at least one unit of price there.
pub moved_stop_is_Clear :
    (e : Engine) (ltp : Option LtpResult) (p : Position) (last stop : ℕ)
    → get_last_price e ltp ≡ some last
    → evaluate_exit_conditions e ltp p ≡ write_stop stop
    → 10000 ≤ last * e.trailing_stop_pct
    → Clear p.direction last stop
moved_stop_is_Clear e ltp p last stop priced decided wide =
    let at_price : evaluate_at e p last ≡ write_stop stop =
      unfold evaluate_exit_conditions in ground (arith, priced, decided) in
    let (computed, quiet) = decided_is_computed e p last stop at_price in
    rw computed (
      compute-Clear p.direction last p.stop_price e.trailing_stop_pct
        (elim (stop_cases p.direction last p.stop_price) [
          | inl (fired, _) ↦ ground (arith, fired, quiet)
          | inr (_, clear) ↦ clear
        ])
        wide)
