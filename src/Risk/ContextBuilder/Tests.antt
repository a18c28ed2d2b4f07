-- ===== src/Risk/ContextBuilder/Tests.antt =====
-- risk_context_builder.py on reads that all answer.
use quant_embrace_v.Common.{Bool, ◌≡◌, refl, none, some, [], ◌∷◌, pos}
use quant_embrace_v.Risk.Limits.{nse, defaults}
use quant_embrace_v.Risk.Signals.{Signal, buy}
use quant_embrace_v.Risk.Validators.Position.{PositionItem, get_total_exposure, sum_values}
use quant_embrace_v.Risk.ContextBuilder.{Reads, build, fetch_total_exposure}

abbrev signal : Signal
signal = record {
  signal_id = 1;
  symbol = 7;
  market = nse;
  direction = buy;
  quantity = 10;
  price_at_signal = 100;
  generated_at = 99000;
  paper_trade = Bool.false;
  is_closeout = Bool.false;
  bid = none;
  ask = none;
}

abbrev item : PositionItem
item = record { quantity = some (pos 3); avg_price = some 90; last_price = some 100 }

abbrev reads : Reads
reads = record {
  held_read = some (some (record { confirmed = some (pos 3); avg_entry = some 90 }));
  pending_query = λ st. some (some 4 ∷ []);
  volume_read = some (some (record { volume_20d = none; volume_30d = some 5000 }));
  quote_read = some (some (record { spread = some 12; captured_at = some (some 90000) }));
  nav_read = some (some (some 2000));
  analytics_read = some (some (record { sectors = λ name. 50; computed_at = some (some 80000) }));
  exposure_pages = some (item ∷ []) ∷ some (item ∷ item ∷ []) ∷ [];
}

exposure_of_pages : (build 100000 defaults reads signal).current_exposure ≡ 900
unfolding build fetch_total_exposure get_total_exposure sum_values
exposure_of_pages = refl
