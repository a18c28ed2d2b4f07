-- ===== src/Risk/FillHandler/Tests.antt =====
-- service.py: a purchase on a day on which the held position has lost nearly all.
use quant_embrace_v.Common.{◌≡◌, refl, true, false, none, some, [], ◌∷◌, ◌++◌, ℤ, pos, negsuc}
use quant_embrace_v.Execution.Orders.Database.{answered, lost_before}
use quant_embrace_v.Risk.Limits.{
  nse, defaults, get_limit, get_portfolio_value, update_portfolio_value,
}
use quant_embrace_v.Risk.Signals.{buy}
use quant_embrace_v.Risk.DailyLoss.{get_unrealized_pnl, sum_unrealized}
use quant_embrace_v.Risk.DailyLoss.Fills.{
  fill_symbol, apply_fill_to_daily_symbol_pnl, update_daily_pnl_and_nav, count_fill, record_fill,
}
use quant_embrace_v.Risk.DailyLoss.Samples
use quant_embrace_v.Risk.DailyLoss.Samples.{all_seen, books}
use quant_embrace_v.Risk.KillSwitch
use quant_embrace_v.Risk.KillSwitch.Cache.{Cache, polls}
use quant_embrace_v.Risk.KillSwitch.Cache.Polling.{seen_by}
use quant_embrace_v.Risk.KillSwitch.Monitor.{Monitor}
use quant_embrace_v.Risk.Pipeline.{validate_signal}
use quant_embrace_v.Risk.Pipeline.Samples.{memory, empty, quoted, observed, engine}
use quant_embrace_v.Risk.FillHandler.{
  FillEvent, FillNames, Course, Engine, total_of, recorded, is_breach, handle_fill,
}
use quant_embrace_v.Risk.FillHandler.Halting.{breach_stops_signals}

abbrev named : FillNames
named = record { name_of = λ topic partition offset. offset }

abbrev event : FillEvent
event = record {
  raw_topic = 1;
  raw_partition = 0;
  raw_offset = 41;
  symbol = 7;
  market = nse;
  direction = buy;
  strategy_id = 3;
  quantity_filled = 10;
  avg_fill_price = some 100;
}

abbrev course : Course
course = record {
  now = 100000;
  mono = 50000;
  today = 20;
  opening = 1000;
  reads = record {
    day_read = some none;
    order_pages = [];
    position_pages =
        some (
          record { quantity = some (pos 100); avg_price = some 100000000; last_price = some 10 }
          ∷ [])
        ∷ [];
  };
  fates = all_seen;
  persist_fate = answered;
}

abbrev monitor : Monitor
monitor = record {
  order_rate_limit = 20;
  order_rate_window = 60000;
  broker_timeout = none;
  consumer_lag_timeout = 300000;
  producer_heartbeat_timeout = 60000;
  strategy_loss_pct = 500;
  start_time = 0;
  order_timestamps = [];
  last_broker_ping = none;
  broker_connected = false;
  last_tick = [];
  ks_was_active = false;
  strategy_pnl = [];
}

abbrev before : Engine named Samples.memory memory
before = record {
  books = books;
  monitor = monitor;
  switch = KillSwitch.new;
  pnl_rows = Samples.empty;
  risk_rows = empty;
}

abbrev cache : Cache
cache = record { wired = false; cached_active = false; running = true; callbacks = 0 }

abbrev loss : ℤ
loss = negsuc 9999998999

total : total_of (recorded named Samples.memory memory course event 100 before).1 ≡ some loss
unfolding record_fill count_fill apply_fill_to_daily_symbol_pnl update_daily_pnl_and_nav fill_symbol
    get_unrealized_pnl sum_unrealized
total = refl

breach :
    is_breach named Samples.memory memory nse
      (recorded named Samples.memory memory course event 100 before).0
      loss
    ≡ true
unfolding record_fill count_fill apply_fill_to_daily_symbol_pnl update_daily_pnl_and_nav fill_symbol
    get_unrealized_pnl sum_unrealized get_limit get_portfolio_value update_portfolio_value defaults
breach = refl

idle : KillSwitch.new.active ≡ false
unfolding KillSwitch.new
idle = refl

breach_stops_signals_example :
    let t = (handle_fill named Samples.memory memory course event before).risk_rows in
    let seen =
      polls memory ((lost_before ∷ []) ++ answered ∷ lost_before ∷ []) KillSwitch.new cache t in
    ((handle_fill named Samples.memory memory course event before).switch.active ≡ true)
    × ((validate_signal memory observed quoted (seen_by engine seen) t).1.approved ≡ false)
breach_stops_signals_example =
    breach_stops_signals named Samples.memory memory course event 100 loss before (lost_before ∷ [])
      (lost_before ∷ []) KillSwitch.new cache observed quoted engine refl refl total breach idle
      refl refl
