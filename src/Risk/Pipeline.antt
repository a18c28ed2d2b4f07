-- ===== src/Risk/Pipeline.antt =====
-- services/risk_engine/service.py: validate_signal. The reads and the clocks of one validation are an
-- observation; a wall clock and a monotonic one, in milliseconds, stand still during it. The decisions
-- that are handed to the audit log are kept in the order in which they are made.
pub mod Admission
pub mod Limits
pub mod Halt
pub mod Samples
mod Tests
use quant_embrace_v.Common.{
  ℕ, Bool, true, false, not, Option, none, some, List, [], ◌∷◌, ◌++◌, if◌then◌else◌,
}
use quant_embrace_v.Execution.Orders.Database.{Fate}
use quant_embrace_v.Execution.Orders.Status.{OrderStatus}
use quant_embrace_v.Execution.SafeActions.RiskState.{Text, RiskTable}
use quant_embrace_v.Risk.KillSwitch
use quant_embrace_v.Risk.KillSwitch.{KillSwitch}
use quant_embrace_v.Risk.Limits.{RiskLimits, Market, nse, us}
use quant_embrace_v.Risk.Signals.{
  Signal, Validator, RiskValidationResult, result, risk_context, daily_loss,
}
use quant_embrace_v.Risk.Validators.Age.{AgeValidator, validate_age}
use quant_embrace_v.Risk.Validators.EntryBlock.{EntryBlockValidator, validate_entry_block}
use quant_embrace_v.Risk.Validators.Reconciliation.{
  ReconciliationValidator, validate_reconciliation,
}
use quant_embrace_v.Risk.Validators.Context.{
  RiskContext, DataError, Thresholds, validate_liquidity, validate_spread, validate_sector,
}
use quant_embrace_v.Risk.Validators.Position.{PositionItem, validate_position, validate_exposure}
use quant_embrace_v.Risk.Validators.Margin.{MarginItem, MarginValidator, validate_margin}
use quant_embrace_v.Risk.Validators.Slippage.{SlippageValidator, validate_slippage}
use quant_embrace_v.Risk.ContextBuilder.{Reads, build}
use quant_embrace_v.Risk.DailyLoss.{LossValidator, PnlReads, validate_loss}

pub record RiskDecision : Type 0 where
  pub risk_decision_id : ℕ
  pub signal_id : ℕ
  pub approved : Bool
  pub validator_results : List RiskValidationResult

pub record RiskEngine : Type 0 where
  pub halted : Bool  -- the cached state of the kill switch
  pub kill_switch : KillSwitch
  pub limits : RiskLimits
  pub age : AgeValidator
  pub entry : EntryBlockValidator
  pub recon : ReconciliationValidator
  pub liquidity : Thresholds
  pub spread : Thresholds
  pub registry : Option (ℕ → Option ℕ)
  pub margin : MarginValidator
  pub slippage : SlippageValidator
  pub loss : LossValidator
  pub nse_tick : Option ℕ
  pub us_tick : Option ℕ
  pub audit : List RiskDecision

-- What one validation sees.
pub record Observation : Type 0 where
  pub now : ℕ
  pub mono : ℕ
  pub today : ℕ
  pub decision_id : ℕ
  pub entry_fate : Fate
  pub recon_read : Option (Option Bool)
  pub context_reads : Reads
  pub position_read : Option (Option PositionItem)
  pub in_flight : OrderStatus → Option (List (Option ℕ))
  pub exposure_pages : List (Option (List PositionItem))
  pub margin_read : Option (Option MarginItem)
  pub adv_read : Option (Option ℕ)
  pub pnl_reads : PnlReads
  pub persist_fate : Fate

-- `record_data_tick` of the monitor, in upper case or not.
unfoldable pub record_data_tick : Market → ℕ → RiskEngine → RiskEngine
record_data_tick nse now e = record e { nse_tick = some now }
record_data_tick us now e = record e { us_tick = some now }

-- A decision, which is logged.
unfoldable pub decide :
    Observation → Signal → Bool → List RiskValidationResult → RiskEngine → RiskEngine × RiskDecision
decide o s ok results e =
    let d : RiskDecision = record {
      risk_decision_id = o.decision_id;
      signal_id = s.signal_id;
      approved = ok;
      validator_results = results;
    } in
    (record e { audit = e.audit ++ (d ∷ []) }, d)

-- A validator as a step of the engine.
abbrev pub Gate : Type 0
Gate = RiskEngine → RiskEngine × RiskValidationResult

abbrev pub position_gate : Observation → Signal → Gate
position_gate o s e = (e, validate_position o.position_read o.in_flight e.limits s)

abbrev pub exposure_gate : Observation → Signal → Gate
exposure_gate o s e = (e, validate_exposure o.exposure_pages e.limits s)

abbrev pub liquidity_gate : RiskContext → Gate
liquidity_gate c e = (e, validate_liquidity c e.liquidity)

abbrev pub spread_gate : RiskContext → Gate
spread_gate c e = (e, validate_spread c e.spread)

abbrev pub sector_gate : RiskContext → Gate
sector_gate c e = (e, validate_sector c e.registry e.limits)

abbrev pub margin_gate : Observation → Signal → Gate
margin_gate o s e =
    let (v, res) = validate_margin o.mono o.margin_read s e.margin in (record e { margin = v }, res)

abbrev pub slippage_gate : Observation → Signal → Gate
slippage_gate o s e = (e, validate_slippage o.adv_read s e.slippage)

abbrev pub loss_gate : Observation → Signal → Gate
loss_gate o s e =
    let (v, res) = validate_loss o.mono o.today o.pnl_reads e.limits s e.loss in
    (record e { loss = v }, res)

-- The loops over the validators: the results in order, to the first one that rejects.
unfoldable pub run_gates :
    List Gate
    → RiskEngine
    → List RiskValidationResult
    → RiskEngine × List RiskValidationResult × Option Validator
run_gates [] e results = (e, results, none)
run_gates (gate ∷ gates) e results =
    let (e', res) = gate e in
    let results' = results ++ (res ∷ []) in
    let rest = run_gates gates e' results' in
    if res.approved then rest else (e', results', some res.validator_name)

-- Steps 4 and 5, 6 to 8, and 9 to 11.
abbrev pub gates : Observation → Signal → RiskContext → List Gate
gates o s c =
    position_gate o s
    ∷ exposure_gate o s
    ∷ liquidity_gate c
    ∷ spread_gate c
    ∷ sector_gate c
    ∷ margin_gate o s
    ∷ slippage_gate o s
    ∷ loss_gate o s
    ∷ []

-- The reason and the author of an activation after a loss.
abbrev pub auto_triggered : Text
auto_triggered = some 1

abbrev pub loss_validator : ℕ
loss_validator = 3

abbrev pub is_loss : Validator → Bool
is_loss daily_loss = true
is_loss _ = false

abbrev pub has_errors : List DataError → Bool
has_errors [] = false
has_errors (_ ∷ _) = true

module _ (db : RiskTable) where
  open db use {Table}

  abbrev pub Outcome : Type 0
  Outcome = RiskEngine × RiskDecision × Table

  abbrev pub concluded : RiskEngine × RiskDecision → Table → Outcome
  concluded (e, d) t = (e, d, t)

  -- The kill switch is activated where the daily loss rejects.
  unfoldable pub conclude :
      Observation
      → Signal
      → RiskEngine × List RiskValidationResult × Option Validator
      → Table
      → Outcome
  conclude o s (e, results, none) t = concluded (decide o s true results e) t
  conclude o s (e, results, some name) t =
      let (e', d) = decide o s false results e in
      let (k, t') =
        KillSwitch.activate db auto_triggered loss_validator o.now o.persist_fate e'.kill_switch
          t in
      if is_loss name then (record e' { kill_switch = k }, d, t') else (e', d, t)

  -- The context, and the validators.
  unfoldable pub run_validators :
      Observation → Signal → RiskEngine → List RiskValidationResult → Table → Outcome
  run_validators o s e results t =
      let c = build o.now e.limits o.context_reads s in
      let results' = results ++ (result s.paper_trade risk_context ∷ []) in
      if has_errors c.risk_data_errors
      then (if s.paper_trade
          then conclude o s (run_gates (gates o s c) e results') t
          else concluded (decide o s false results' e) t)
      else conclude o s (run_gates (gates o s c) e results) t

  -- The entry block and the reconciliation.
  unfoldable pub run_flags :
      Observation → Signal → RiskEngine → RiskValidationResult → Table → Outcome
  run_flags o s e age_result t =
      let (entry, eb_result) = validate_entry_block db o.mono o.entry_fate t s e.entry in
      let e' = record e { entry = entry } in
      let (recon, recon_result) = validate_reconciliation o.mono o.recon_read s e.recon in
      let e'' = record e' { recon = recon } in
      let results = age_result ∷ eb_result ∷ recon_result ∷ [] in
      if eb_result.approved
      then (if recon_result.approved
          then run_validators o s e'' results t
          else concluded (decide o s false results e'') t)
      else concluded (decide o s false (eb_result ∷ []) e') t

  unfoldable pub validate_signal : Observation → Signal → RiskEngine → Table → Outcome
  validate_signal o s e t =
      let e' = record_data_tick s.market o.now e in
      let age_result = validate_age o.now s e.age in
      if age_result.approved
      then (if e.halted
          then concluded (decide o s false [] e') t
          else run_flags o s e' age_result t)
      else concluded (decide o s false (age_result ∷ []) e') t
