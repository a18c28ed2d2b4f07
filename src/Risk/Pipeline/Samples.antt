-- ===== src/Risk/Pipeline/Samples.antt =====
-- service.py: an engine, a signal with its quotes and the reads of a validation, for the tests.
use quant_embrace_v.Common.{
  ℕ, refl, false, not, ◌&&◌, Option, none, some, [], ◌∷◌, is_some, pos, negsuc, if◌then◌else◌,
}
use quant_embrace_v.Execution.Orders.Database.{answered}
use quant_embrace_v.Execution.SafeActions.RiskState.{Key, key_eq, Item, RiskTable}
use quant_embrace_v.Risk.KillSwitch
use quant_embrace_v.Risk.Limits.{nse, defaults}
use quant_embrace_v.Risk.Signals.{Signal, buy}
use quant_embrace_v.Risk.Validators.Age.{new_age}
use quant_embrace_v.Risk.Validators.EntryBlock.{new_entry_block}
use quant_embrace_v.Risk.Validators.Reconciliation.{new_reconciliation}
use quant_embrace_v.Risk.Validators.Context.{Thresholds}
use quant_embrace_v.Risk.Validators.Position.{PositionItem}
use quant_embrace_v.Risk.Validators.Margin.{new_margin}
use quant_embrace_v.Risk.ContextBuilder.{Reads}
use quant_embrace_v.Risk.DailyLoss.{new}
use quant_embrace_v.Risk.Pipeline.{RiskEngine, Observation}

abbrev pub Rows : Type 0
Rows = Key → Option Item

abbrev pub memory : RiskTable
memory = record {
  Table = Rows;
  get_item = λ t k. t k;
  put_item = λ k i t j. if key_eq k j then some i else t j;
  put_absent = λ k i t.
      (not (is_some (t k)), λ j. if not (is_some (t k)) && key_eq k j then some i else t j);
  get_item-put_item = λ k i t j. refl;
  put_absent_reply = λ k i t. refl;
  get_item-put_absent = λ k i t j. refl;
}

abbrev pub empty : Rows
empty k = none

abbrev pub quoted : Signal
quoted = record {
  signal_id = 1;
  symbol = 7;
  market = nse;
  direction = buy;
  quantity = 10;
  price_at_signal = 100;
  generated_at = 99000;
  paper_trade = false;
  is_closeout = false;
  bid = some 9999;
  ask = some 10001;
}

abbrev pub held : PositionItem
held = record { quantity = some (pos 3); avg_price = some 90; last_price = some 100 }

abbrev pub reads : Reads
reads = record {
  held_read = some (some (record { confirmed = some (pos 3); avg_entry = some 90 }));
  pending_query = λ st. some [];
  volume_read = some (some (record { volume_20d = some 5000; volume_30d = none }));
  quote_read = some (some (record { spread = some 12; captured_at = some (some 90000) }));
  nav_read = some (some (some 1000000));
  analytics_read = some (some (record { sectors = λ name. 50; computed_at = some (some 80000) }));
  exposure_pages = some (held ∷ []) ∷ [];
}

abbrev pub observed : Observation
observed = record {
  now = 100000;
  mono = 50000;
  today = 20;
  decision_id = 77;
  entry_fate = answered;
  recon_read = some none;
  context_reads = reads;
  position_read = some (some held);
  in_flight = λ st. some (some 2 ∷ []);
  exposure_pages = some (held ∷ []) ∷ [];
  margin_read = some (
      some (record {
        cash_attribute = some 900;
        margin_attribute = none;
        collateral_attribute = some 400;
      }));
  adv_read = some (some 5000);
  pnl_reads = record {
    day_read = some (some (some (negsuc 99)));
    order_pages = [];
    position_pages = some (held ∷ []) ∷ [];
  };
  persist_fate = answered;
}

abbrev limit_of : ℕ → Thresholds
limit_of n = record { general = n; overrides = λ symbol. none }

abbrev pub engine : RiskEngine
engine = record {
  halted = false;
  kill_switch = KillSwitch.new;
  limits = defaults;
  age = new_age 5000;
  entry = new_entry_block false none 5000;
  recon = new_reconciliation;
  liquidity = limit_of 100;
  spread = limit_of 50;
  registry = some (λ symbol. some 4);
  margin = new_margin 20;
  slippage = record {
    max_spread_pct = 20;
    max_adv_pct = 50;
    max_total_cost_pct = 30;
    warn_only = false;
  };
  loss = new;
  nse_tick = none;
  us_tick = none;
  audit = [];
}
