-- ===== src/Risk/Pipeline/Tests.antt =====
-- service.py: a signal that passes every check, and what changes where one of them does not.
use quant_embrace_v.Common.{◌≡◌, inr, refl, true, false, ◌&&◌, none, []}
use quant_embrace_v.Risk.KillSwitch
use quant_embrace_v.Risk.Limits.{defaults, get_limit, get_portfolio_value}
use quant_embrace_v.Risk.Signals.{Signal, signal_notional, is_paper_signal}
use quant_embrace_v.Risk.Validators.Age.{new_age, validate_age}
use quant_embrace_v.Risk.Validators.EntryBlock.{
  new_entry_block, refresh_entry_block, validate_entry_block, read_entry_block, take_item,
}
use quant_embrace_v.Risk.Validators.Reconciliation.{
  new_reconciliation, refresh_reconciliation, validate_reconciliation,
}
use quant_embrace_v.Risk.Validators.Context.{
  threshold, get_sector, proposed_sector_exposure, validate_liquidity, validate_spread,
  validate_sector,
}
use quant_embrace_v.Risk.Validators.Position.{
  total_quantity, sum_queries, get_confirmed_position, get_pending_quantity, judge_position,
  validate_position, sum_values, get_total_exposure, judge_exposure, validate_exposure,
}
use quant_embrace_v.Risk.Validators.Margin.{
  new_margin, fetch_margin, get_margin_snapshot, validate_margin,
}
use quant_embrace_v.Risk.Validators.Slippage.{get_adv, validate_slippage}
use quant_embrace_v.Risk.ContextBuilder.{
  build, fetch_position_state, fetch_pending_quantity, fetch_adv, fetch_live_spread_bps,
  fetch_portfolio_nav, fetch_analytics_snapshot, fetch_total_exposure,
}
use quant_embrace_v.Risk.DailyLoss.{
  new, fetch_realized_pnl_from_db, get_realized_pnl, get_daily_pnl,
}
use quant_embrace_v.Risk.Pipeline.{Observation, validate_signal}
use quant_embrace_v.Risk.Pipeline.Admission.{all_checks, approved_iff_all_checks}
use quant_embrace_v.Risk.Pipeline.Limits.{unquoted_never_approved}
use quant_embrace_v.Risk.Pipeline.Halt.{
  halted_by, switch_of, reaches_loss, loss_rejects, loss_halts, unread_loss_halts,
}
use quant_embrace_v.Risk.Pipeline.Samples.{memory, empty, quoted, observed, engine}

approved_iff_all_checks_example :
    (validate_signal memory observed quoted engine empty).1.approved
    ≡ all_checks memory observed quoted engine empty
approved_iff_all_checks_example = approved_iff_all_checks memory observed quoted engine empty

abbrev bare : Signal
bare = record quoted { ask = none }

unquoted_never_approved_example :
    (validate_signal memory observed bare engine empty).1.approved ≡ false
unquoted_never_approved_example =
    unquoted_never_approved memory observed bare engine empty refl (inr refl)

loss_halts_example :
    switch_of memory (validate_signal memory observed quoted engine empty)
    ≡ halted_by memory
        (reaches_loss memory observed quoted engine empty && loss_rejects observed quoted engine)
        observed
        KillSwitch.new
        empty
loss_halts_example = loss_halts memory observed quoted engine empty

abbrev unread : Observation
unread = record observed {
  pnl_reads = record { day_read = none; order_pages = []; position_pages = [] };
}

reaches : reaches_loss memory unread quoted engine empty ≡ true
unfolding validate_age new_age validate_entry_block new_entry_block refresh_entry_block
    read_entry_block take_item is_paper_signal validate_reconciliation new_reconciliation
    refresh_reconciliation build fetch_position_state fetch_pending_quantity fetch_adv
    fetch_live_spread_bps fetch_portfolio_nav fetch_analytics_snapshot fetch_total_exposure
    total_quantity sum_values get_total_exposure validate_position get_confirmed_position
    get_pending_quantity sum_queries judge_position defaults get_limit get_portfolio_value
    signal_notional validate_exposure judge_exposure validate_liquidity threshold validate_spread
    validate_sector get_sector proposed_sector_exposure validate_margin new_margin fetch_margin
    get_margin_snapshot validate_slippage get_adv
reaches = refl

no_result : (get_daily_pnl 50000 20 unread.pnl_reads engine.loss).1 ≡ none
unfolding get_daily_pnl get_realized_pnl fetch_realized_pnl_from_db new
no_result = refl

unread_loss_halts_example :
    (switch_of memory (validate_signal memory unread quoted engine empty)).0.active ≡ true
unread_loss_halts_example =
    unread_loss_halts memory unread quoted engine empty refl reaches no_result
