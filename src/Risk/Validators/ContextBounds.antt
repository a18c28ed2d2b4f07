-- ===== src/Risk/Validators/ContextBounds.antt =====
-- The validators that read a context, and the two flags, for a signal that is not on paper.
use quant_embrace_v.Common.{ℕ, ◌≡◌, ◌⊎◌, inl, inr, Bool, true, false, Option, arith, Option-cases}
use quant_embrace_v.Execution.Orders.Database.{Fate}
use quant_embrace_v.Execution.SafeActions.RiskState.{RiskTable}
use quant_embrace_v.Risk.Limits.{RiskLimits}
use quant_embrace_v.Risk.Signals.{Signal, liquidity, spread_gate, sector, is_paper_signal}
use quant_embrace_v.Risk.Validators.EntryBlock.{
  EntryBlockValidator, refresh_entry_block, validate_entry_block,
}
use quant_embrace_v.Risk.Validators.Reconciliation.{
  ReconciliationValidator, refresh_reconciliation, validate_reconciliation,
}
use quant_embrace_v.Risk.Validators.Context.{
  RiskContext, Thresholds, get_sector, validate_liquidity, validate_spread, validate_sector,
}
use quant_embrace_v.Risk.Validators.Bounds.{VolumeKept, SpreadKept, SectorKept, unavailable_live}

module _ (c : RiskContext) (live : c.signal.paper_trade ≡ false) where
  pub liquidity-Kept : (t : Thresholds) → (validate_liquidity c t).approved ≡ true → VolumeKept c t
  unfolding validate_liquidity
  liquidity-Kept t h = elim (Option-cases c.adv_20d) [
    | inl e ↦ ground (arith, e, unavailable_live c.signal live liquidity)
    | inr (v, e) ↦ (
      v,
      e,
      ground (arith, e, h, unavailable_live c.signal live liquidity),
      ground (arith, e, h, unavailable_live c.signal live liquidity),
    )
  ]

  pub spread-Kept : (t : Thresholds) → (validate_spread c t).approved ≡ true → SpreadKept c t
  unfolding validate_spread
  spread-Kept t h = elim (Option-cases c.live_spread_bps) [
    | inl e ↦ ground (arith, e, unavailable_live c.signal live spread_gate)
    | inr (x, e) ↦ (x, e, ground (arith, e, h))
  ]

  pub sector-Kept :
      (registry : Option (ℕ → Option ℕ)) (l : RiskLimits)
      → (validate_sector c registry l).approved ≡ true
      → SectorKept c registry l
  unfolding validate_sector
  sector-Kept registry l h = elim (Option-cases (get_sector registry c.signal.symbol)) [
    | inl e ↦ ground (arith, e, unavailable_live c.signal live sector)
    | inr (name, e) ↦ (name, e, ground (arith, e, h, unavailable_live c.signal live sector))
  ]

-- The entry block is read and not set; or the read failed, where the validator fails open.
abbrev pub EntryOpen : EntryBlockValidator → Type 0
EntryOpen v =
    ((v.read_ok ≡ true) × (v.blocked ≡ false)) ⊎ ((v.read_ok ≡ false) × (v.fail_closed ≡ false))

module _ (s : Signal) (live : s.paper_trade ≡ false) (opens : s.is_closeout ≡ false) where
  pub entry-Open :
      (db : RiskTable) (now : ℕ) (fate : Fate) (t : db.Table) (v : EntryBlockValidator)
      → (validate_entry_block db now fate t s v).1.approved ≡ true
      → EntryOpen (refresh_entry_block db now fate t v)
  unfolding validate_entry_block is_paper_signal
  entry-Open db now fate t v h = ground (arith, live, opens)

  pub reconciliation_clear :
      (now : ℕ) (read : Option (Option Bool)) (v : ReconciliationValidator)
      → (validate_reconciliation now read s v).1.approved ≡ true
      → (refresh_reconciliation now read v).required ≡ false
  unfolding validate_reconciliation
  reconciliation_clear now read v h = ground (arith, live, opens)
