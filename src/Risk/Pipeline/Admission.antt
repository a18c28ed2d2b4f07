-- ===== src/Risk/Pipeline/Admission.antt =====
-- service.py: validate_signal against the conjunction of what its checks say, whatever their order.
use quant_embrace_v.Common.{
  ◌≡◌, Bool, not, ◌&&◌, ◌||◌, Option, none, some, List, [], ◌∷◌, ◌++◌, arith, is_some, refl,
}
use quant_embrace_v.Execution.SafeActions.RiskState.{RiskTable}
use quant_embrace_v.Risk.Signals.{Signal, Validator, RiskValidationResult, result, risk_context}
use quant_embrace_v.Risk.Validators.Age.{validate_age}
use quant_embrace_v.Risk.Validators.EntryBlock.{validate_entry_block}
use quant_embrace_v.Risk.Validators.Reconciliation.{validate_reconciliation}
use quant_embrace_v.Risk.Validators.Context.{
  RiskContext, validate_liquidity, validate_spread, validate_sector,
}
use quant_embrace_v.Risk.Validators.Position.{validate_position, validate_exposure}
use quant_embrace_v.Risk.Validators.Margin.{validate_margin}
use quant_embrace_v.Risk.Validators.Slippage.{validate_slippage}
use quant_embrace_v.Risk.ContextBuilder.{build}
use quant_embrace_v.Risk.DailyLoss.{validate_loss}
use quant_embrace_v.Risk.Pipeline.{
  RiskEngine, Observation, record_data_tick, decide, run_gates, gates, has_errors, conclude,
  run_validators, run_flags, validate_signal,
}

-- The verdicts of the validators on one state, none of them skipped.
abbrev pub all_limits : Observation → Signal → RiskContext → RiskEngine → Bool
all_limits o s c e =
    (validate_position o.position_read o.in_flight e.limits s).approved
    && ((validate_exposure o.exposure_pages e.limits s).approved
        && ((validate_liquidity c e.liquidity).approved
            && ((validate_spread c e.spread).approved
                && ((validate_sector c e.registry e.limits).approved
                    && ((validate_margin o.mono o.margin_read s e.margin).1.approved
                        && ((validate_slippage o.adv_read s e.slippage).approved
                            && (validate_loss o.mono o.today o.pnl_reads e.limits s
                                e.loss).1.approved))))))

gates_agree :
    (o : Observation) (s : Signal) (c : RiskContext) (e : RiskEngine)
    (rs : List RiskValidationResult)
    → not (is_some (run_gates (gates o s c) e rs).2) ≡ all_limits o s c e
unfolding run_gates
gates_agree o s c e rs = ground arith

abbrev pub context_of : Observation → Signal → RiskEngine → RiskContext
context_of o s e = build o.now e.limits o.context_reads s

module _ (db : RiskTable) where
  open db use {Table}

  conclude_approves :
      (o : Observation) (s : Signal) (r : RiskEngine × List RiskValidationResult × Option Validator)
      (t : Table)
      → (conclude db o s r t).1.approved ≡ not (is_some r.2)
  unfolding conclude decide
  conclude_approves o s (e, rs, none) t = refl
  conclude_approves o s (e, rs, some name) t = ground arith

  -- Every check of the chain, each on the state before the signal.
  abbrev pub all_checks : Observation → Signal → RiskEngine → Table → Bool
  all_checks o s e t =
      (validate_age o.now s e.age).approved
      && (not e.halted
          && ((validate_entry_block db o.mono o.entry_fate t s e.entry).1.approved
              && ((validate_reconciliation o.mono o.recon_read s e.recon).1.approved
                  && ((not (has_errors (context_of o s e).risk_data_errors) || s.paper_trade)
                      && all_limits o s (context_of o s e) e))))

  validators_agree :
      (o : Observation) (s : Signal) (e : RiskEngine) (rs : List RiskValidationResult) (t : Table)
      → (run_validators db o s e rs t).1.approved ≡ (
          (not (has_errors (context_of o s e).risk_data_errors) || s.paper_trade)
          && all_limits o s (context_of o s e) e)
  unfolding run_validators decide
  validators_agree o s e rs t = ground (
    arith,
    gates_agree o s (context_of o s e) e rs,
    gates_agree o s (context_of o s e) e (rs ++ (result s.paper_trade risk_context ∷ [])),
    conclude_approves o s (run_gates (gates o s (context_of o s e)) e rs) t,
    conclude_approves o s
        (run_gates (gates o s (context_of o s e)) e
          (rs ++ (result s.paper_trade risk_context ∷ [])))
        t,
  )

  flags_agree :
      (o : Observation) (s : Signal) (e : RiskEngine) (a : RiskValidationResult) (t : Table)
      → (run_flags db o s e a t).1.approved ≡ (
          (validate_entry_block db o.mono o.entry_fate t s e.entry).1.approved
          && ((validate_reconciliation o.mono o.recon_read s e.recon).1.approved
              && ((not (has_errors (context_of o s e).risk_data_errors) || s.paper_trade)
                  && all_limits o s (context_of o s e) e)))
  unfolding run_flags decide
  flags_agree o s e a t =
      let (entry, eb) = validate_entry_block db o.mono o.entry_fate t s e.entry in
      let (recon, rc) = validate_reconciliation o.mono o.recon_read s e.recon in
      ground (
        arith,
        validators_agree o s (record e { entry = entry; recon = recon }) (a ∷ eb ∷ rc ∷ []) t,
      )

  ticked_agree :
      (o : Observation) (s : Signal) (e : RiskEngine) (a : RiskValidationResult) (t : Table)
      → (run_flags db o s (record_data_tick s.market o.now e) a t).1.approved ≡ (
          (validate_entry_block db o.mono o.entry_fate t s e.entry).1.approved
          && ((validate_reconciliation o.mono o.recon_read s e.recon).1.approved
              && ((not (has_errors (context_of o s e).risk_data_errors) || s.paper_trade)
                  && all_limits o s (context_of o s e) e)))
  unfolding record_data_tick
  ticked_agree o s e a t = ground (arith, flags_agree o s (record_data_tick s.market o.now e) a t)

  -- A signal is approved exactly when every check of the chain passes it: neither the order of the
  -- checks, nor the early returns, nor what the earlier ones change in the caches makes a difference.
  pub approved_iff_all_checks :
      (o : Observation) (s : Signal) (e : RiskEngine) (t : Table)
      → (validate_signal db o s e t).1.approved ≡ all_checks o s e t
  unfolding validate_signal decide
  approved_iff_all_checks o s e t =
      ground (arith, ticked_agree o s e (validate_age o.now s e.age) t)
