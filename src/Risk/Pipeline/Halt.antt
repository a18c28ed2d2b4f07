-- ===== src/Risk/Pipeline/Halt.antt =====
-- service.py: what validate_signal does to the kill switch.
use quant_embrace_v.Common.{
  ◌≡◌, Bool, true, false, not, ◌&&◌, ◌||◌, none, some, List, [], ◌∷◌, ◌++◌, Option, arith, refl,
  if◌then◌else◌,
}
use quant_embrace_v.Execution.SafeActions.RiskState.{RiskTable}
use quant_embrace_v.Risk.KillSwitch.{KillSwitch, activate}
use quant_embrace_v.Risk.Signals.{
  Signal, Validator, RiskValidationResult, result, risk_context, daily_loss,
  risk_data_unavailable_result,
}
use quant_embrace_v.Risk.Validators.Age.{validate_age}
use quant_embrace_v.Risk.Validators.EntryBlock.{validate_entry_block}
use quant_embrace_v.Risk.Validators.Reconciliation.{validate_reconciliation}
use quant_embrace_v.Risk.Validators.Context.{
  RiskContext, validate_liquidity, validate_spread, validate_sector,
}
use quant_embrace_v.Risk.Validators.Position.{
  validate_position, validate_exposure, judge_position, judge_exposure,
}
use quant_embrace_v.Risk.Validators.Margin.{validate_margin}
use quant_embrace_v.Risk.Validators.Slippage.{validate_slippage, slippage_rejection}
use quant_embrace_v.Risk.DailyLoss.{validate_loss, get_daily_pnl}
use quant_embrace_v.Risk.Validators.Bounds.{unavailable_live}
use quant_embrace_v.Risk.Pipeline.{
  RiskEngine, Observation, Outcome, record_data_tick, decide, run_gates, gates, has_errors,
  conclude, run_validators, run_flags, validate_signal, auto_triggered, loss_validator, is_loss,
}
use quant_embrace_v.Risk.Pipeline.Admission.{context_of}

-- The verdicts of the validators before the daily loss.
abbrev pub other_limits : Observation → Signal → RiskContext → RiskEngine → Bool
other_limits o s c e =
    (validate_position o.position_read o.in_flight e.limits s).approved
    && ((validate_exposure o.exposure_pages e.limits s).approved
        && ((validate_liquidity c e.liquidity).approved
            && ((validate_spread c e.spread).approved
                && ((validate_sector c e.registry e.limits).approved
                    && ((validate_margin o.mono o.margin_read s e.margin).1.approved
                        && (validate_slippage o.adv_read s e.slippage).approved)))))

abbrev pub loss_rejects : Observation → Signal → RiskEngine → Bool
loss_rejects o s e = not (validate_loss o.mono o.today o.pnl_reads e.limits s e.loss).1.approved

abbrev by_loss : Option Validator → Bool
by_loss none = false
by_loss (some name) = is_loss name

gates_keep_switch :
    (o : Observation) (s : Signal) (c : RiskContext) (e : RiskEngine)
    (rs : List RiskValidationResult)
    → (run_gates (gates o s c) e rs).0.kill_switch ≡ e.kill_switch
unfolding run_gates
gates_keep_switch o s c e rs = ground arith

module _ (o : Observation) (s : Signal) (c : RiskContext) (e : RiskEngine) where
  position_name :
      is_loss (validate_position o.position_read o.in_flight e.limits s).validator_name ≡ false
  unfolding validate_position judge_position risk_data_unavailable_result
  position_name = ground arith

  exposure_name : is_loss (validate_exposure o.exposure_pages e.limits s).validator_name ≡ false
  unfolding validate_exposure judge_exposure risk_data_unavailable_result
  exposure_name = ground arith

  margin_name : is_loss (validate_margin o.mono o.margin_read s e.margin).1.validator_name ≡ false
  unfolding validate_margin risk_data_unavailable_result
  margin_name = ground arith

  slippage_name : is_loss (validate_slippage o.adv_read s e.slippage).validator_name ≡ false
  unfolding validate_slippage slippage_rejection risk_data_unavailable_result
  slippage_name = ground arith

  loss_name :
      is_loss (validate_loss o.mono o.today o.pnl_reads e.limits s e.loss).1.validator_name ≡ true
  unfolding validate_loss risk_data_unavailable_result
  loss_name = ground arith

  liquidity_name : is_loss (validate_liquidity c e.liquidity).validator_name ≡ false
  unfolding validate_liquidity risk_data_unavailable_result
  liquidity_name = ground arith

  spread_name : is_loss (validate_spread c e.spread).validator_name ≡ false
  unfolding validate_spread risk_data_unavailable_result
  spread_name = ground arith

  sector_name : is_loss (validate_sector c e.registry e.limits).validator_name ≡ false
  unfolding validate_sector risk_data_unavailable_result
  sector_name = ground arith

  loss_verdict :
      (rs : List RiskValidationResult)
      → by_loss (run_gates (gates o s c) e rs).2 ≡ (other_limits o s c e && loss_rejects o s e)
  unfolding run_gates
  loss_verdict rs = ground (
    arith, position_name, exposure_name, liquidity_name, spread_name, sector_name, margin_name,
    slippage_name, loss_name,
  )

module _ (db : RiskTable) where
  open db use {Table}

  -- The switch and the table, after a rejection by the daily loss or without one.
  abbrev pub halted_by : Bool → Observation → KillSwitch → Table → KillSwitch × Table
  halted_by b o k t =
      if b then activate db auto_triggered loss_validator o.now o.persist_fate k t else (k, t)

  abbrev pub switch_of : Outcome db → KillSwitch × Table
  switch_of (e, d, t) = (e.kill_switch, t)

  conclude_switch :
      (o : Observation) (s : Signal) (r : RiskEngine × List RiskValidationResult × Option Validator)
      (t : Table)
      → switch_of (conclude db o s r t) ≡ halted_by (by_loss r.2) o r.0.kill_switch t
  unfolding conclude decide
  conclude_switch o s (e, rs, none) t = refl
  conclude_switch o s (e, rs, some name) t = ground arith

  -- The checks before the daily loss.
  abbrev pub reaches_loss : Observation → Signal → RiskEngine → Table → Bool
  reaches_loss o s e t =
      (validate_age o.now s e.age).approved
      && (not e.halted
          && ((validate_entry_block db o.mono o.entry_fate t s e.entry).1.approved
              && ((validate_reconciliation o.mono o.recon_read s e.recon).1.approved
                  && ((not (has_errors (context_of o s e).risk_data_errors) || s.paper_trade)
                      && other_limits o s (context_of o s e) e))))

  concluded_switch :
      (o : Observation) (s : Signal) (c : RiskContext) (e : RiskEngine)
      (rs : List RiskValidationResult) (t : Table)
      → switch_of (conclude db o s (run_gates (gates o s c) e rs) t)
        ≡ halted_by (other_limits o s c e && loss_rejects o s e) o e.kill_switch t
  concluded_switch o s c e rs t =
      rw
        (
          conclude_switch o s (run_gates (gates o s c) e rs) t,
          loss_verdict o s c e rs,
          gates_keep_switch o s c e rs,
        )
        refl

  validators_switch :
      (o : Observation) (s : Signal) (e : RiskEngine) (rs : List RiskValidationResult) (t : Table)
      → switch_of (run_validators db o s e rs t)
        ≡ halted_by
            (((not (has_errors (context_of o s e).risk_data_errors) || s.paper_trade)
                && other_limits o s (context_of o s e) e)
              && loss_rejects o s e)
            o
            e.kill_switch
            t
  unfolding run_validators decide
  validators_switch o s e rs t = ground (
    arith,
    concluded_switch o s (context_of o s e) e rs t,
    concluded_switch o s (context_of o s e) e (rs ++ (result s.paper_trade risk_context ∷ [])) t,
  )

  flags_switch :
      (o : Observation) (s : Signal) (e : RiskEngine) (a : RiskValidationResult) (t : Table)
      → switch_of (run_flags db o s e a t)
        ≡ halted_by
            (((validate_entry_block db o.mono o.entry_fate t s e.entry).1.approved
                && ((validate_reconciliation o.mono o.recon_read s e.recon).1.approved
                    && ((not (has_errors (context_of o s e).risk_data_errors) || s.paper_trade)
                        && other_limits o s (context_of o s e) e)))
              && loss_rejects o s e)
            o
            e.kill_switch
            t
  unfolding run_flags decide
  flags_switch o s e a t =
      let (entry, eb) = validate_entry_block db o.mono o.entry_fate t s e.entry in
      let (recon, rc) = validate_reconciliation o.mono o.recon_read s e.recon in
      ground (
        arith,
        validators_switch o s (record e { entry = entry; recon = recon }) (a ∷ eb ∷ rc ∷ []) t,
      )

  -- A validation activates the kill switch, and writes its row, exactly when every check before the
  -- daily loss passes the signal and the daily loss rejects it; else the switch and the table stay.
  pub loss_halts :
      (o : Observation) (s : Signal) (e : RiskEngine) (t : Table)
      → switch_of (validate_signal db o s e t)
        ≡ halted_by (reaches_loss o s e t && loss_rejects o s e) o e.kill_switch t
  unfolding validate_signal decide record_data_tick
  loss_halts o s e t =
      ground
        (arith, flags_switch o s (record_data_tick s.market o.now e) (validate_age o.now s e.age) t)

  -- Where the result of the day cannot be read, a signal that is not on paper and that reaches the
  -- daily loss leaves the kill switch active, though no loss is known.
  pub unread_loss_halts :
      (o : Observation) (s : Signal) (e : RiskEngine) (t : Table)
      → s.paper_trade ≡ false
      → reaches_loss o s e t ≡ true
      → (get_daily_pnl o.mono o.today o.pnl_reads e.loss).1 ≡ none
      → (switch_of (validate_signal db o s e t)).0.active ≡ true
  unfolding validate_loss activate
  unread_loss_halts o s e t live reaches unread =
      ground (arith, loss_halts o s e t, unavailable_live s live daily_loss)
