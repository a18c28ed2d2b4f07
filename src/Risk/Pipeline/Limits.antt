-- ===== src/Risk/Pipeline/Limits.antt =====
-- service.py: what the approval of a signal that is not on paper stands on.
use quant_embrace_v.Common.{◌≡◌, ◌⊎◌, inl, inr, false, none, arith}
use quant_embrace_v.Execution.SafeActions.RiskState.{RiskTable}
use quant_embrace_v.Risk.Signals.{Signal, slippage}
use quant_embrace_v.Risk.Validators.Slippage.{validate_slippage}
use quant_embrace_v.Risk.Validators.Bounds.{
  PositionKept, ExposureKept, VolumeKept, SpreadKept, SectorKept, MarginKept, CostKept, LossKept,
  unavailable_live,
}
use quant_embrace_v.Risk.Pipeline.{RiskEngine, Observation, validate_signal}
use quant_embrace_v.Risk.Pipeline.Admission.{context_of, approved_iff_all_checks}

abbrev pub LimitsKept : Observation → Signal → RiskEngine → Type 0
LimitsKept o s e =
    let c = context_of o s e in
    PositionKept o.position_read o.in_flight e.limits s
    × ExposureKept o.exposure_pages e.limits s
    × VolumeKept c e.liquidity
    × SpreadKept c e.spread
    × SectorKept c e.registry e.limits
    × MarginKept o.mono o.margin_read s e.margin
    × CostKept o.adv_read s e.slippage
    × LossKept o.mono o.today o.pnl_reads e.limits s e.loss

module _ (db : RiskTable) where
  open db use {Table}

  -- No signal that is not on paper is ever approved where its bid or its ask is missing, whatever the
  -- reads give.
  pub unquoted_never_approved :
      (o : Observation) (s : Signal) (e : RiskEngine) (t : Table)
      → s.paper_trade ≡ false
      → (s.bid ≡ none) ⊎ (s.ask ≡ none)
      → (validate_signal db o s e t).1.approved ≡ false
  unfolding validate_slippage
  unquoted_never_approved o s e t live (inl missing) =
      ground (arith, missing, approved_iff_all_checks db o s e t, unavailable_live s live slippage)
  unquoted_never_approved o s e t live (inr missing) =
      ground (arith, missing, approved_iff_all_checks db o s e t, unavailable_live s live slippage)
