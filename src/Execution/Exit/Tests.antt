-- ===== src/Execution/Exit/Tests.antt =====
-- The exit path on a table that is a function from symbols, and its theorems at a long position of ten.
use quant_embrace_v.Common.{
  inr, ℕ, ◌+◌, ◌≤◌, ◌<◌, ◌≡◌, ◌⊎◌, refl, true, false, ◌&&◌, Option, none, some, List, [], ◌∷◌, ◌==◌,
  if◌then◌else◌, pos,
}
use quant_embrace_v.Execution.Orders.Database.{answered, lost_after}
use quant_embrace_v.Execution.Exit.Models.{ExitOrderRequest, long, sell, stop_loss, take_profit}
use quant_embrace_v.Execution.Exit.Positions.{Row, row_of, PositionTable}
use quant_embrace_v.Execution.Exit.Engine.{
  Engine, Position, LtpResult, wait, fire, write_stop, evaluate_exit_conditions, get_last_price,
  is_trailing, evaluate_at, manage_trailing_stop, activate_trailing_stop, advance_trailing_stop,
  compute_trailing_stop, trailing_activation_triggered, stop_loss_triggered, take_profit_triggered,
  write_trailing_stop,
}
use quant_embrace_v.Execution.Exit.Router.{
  Router, live, placed, lost, Course, route, route_live, acquire_exit_lock, release_exit_lock,
}
use quant_embrace_v.Execution.Exit.Triggers.{is_fire, evaluate_follows_rules}
use quant_embrace_v.Execution.Exit.Trailing.{check_all, stop_only_tightens}
use quant_embrace_v.Execution.Exit.Lock.{
  as_number, Step, exits, moves_stop, orders_at_large, one_exit_at_large, raised_exit_retries,
  is_at_large, untriggered, unsure_orders, lost_answer_blocks,
}

abbrev Rows : Type 0
Rows = ℕ → Option Row

abbrev memory : PositionTable
memory = record {
  Table = Rows;
  get_item = λ t k. t k;
  update_if = λ k holds change t. (
    holds (row_of (t k)),
    λ j. if holds (row_of (t k)) && (k == j) then some (change (row_of (t k))) else t j,
  );
  update_if_reply = λ k holds change t. refl;
  get_item-update_if = λ k holds change t j. refl;
}

-- Bought at 100.00, with a stop at 98.00 and a target at 103.00.
abbrev held : Row
held = record {
  direction = long;
  quantity = some (pos 10);
  avg_price = some 10000;
  avg_entry_price = none;
  stop_price = some 9800;
  take_profit = some 10300;
  last_price = some 10000;
  exit_order_id = none;
  exit_trigger = none;
  exit_state = none;
}

abbrev book : Rows
book k = if k == 5 then some held else none

abbrev engine : Engine
engine = record {
  trailing_enabled = true;
  trailing_activation_pct = 125;
  trailing_stop_pct = 60;
  max_stale_ltp_live = 3000;
  is_live = true;
}

abbrev position : Position
position = record {
  direction = long;
  quantity = pos 10;
  avg_price = 10000;
  stop_price = 9800;
  take_profit = some 10300;
  last_price = some 10000;
  exit_order_id = none;
  exit_state = none;
}

abbrev quote : ℕ → Option LtpResult
quote p = some (record { price = p; is_stale = false; age = some 500 })

decisions :
    (evaluate_exit_conditions engine (quote 9700) position ≡ fire stop_loss 9700)
    × (evaluate_exit_conditions engine (quote 10350) position ≡ fire take_profit 10300)
    × (evaluate_exit_conditions engine (quote 10200) position ≡ write_stop 10138)
    × (evaluate_exit_conditions engine (quote 10050) position ≡ wait)
unfolding evaluate_exit_conditions evaluate_at get_last_price manage_trailing_stop
    activate_trailing_stop advance_trailing_stop compute_trailing_stop trailing_activation_triggered
    stop_loss_triggered take_profit_triggered
decisions = (refl, refl, refl, refl)

abbrev request : ExitOrderRequest
request = record {
  exit_id = record { symbol = 5; trigger = stop_loss; session_date = 20 };
  symbol = 5;
  position_direction = long;
  close_side = sell;
  close_qty = 10;
  trigger_type = stop_loss;
  exit_price = some 9700;
  is_kill_switch = false;
  avg_entry_price = 10000;
}

abbrev RulesAt : ℕ → Type 0
RulesAt price =
    let d = evaluate_exit_conditions engine (quote price) position in
    (d ≡ wait) × ((false ≡ true) ⊎ (get_last_price engine (quote price) ≡ none))
    ⊎ (position.exit_order_id ≡ none)
      × ((last : ℕ) × (get_last_price engine (quote price) ≡ some last)
          × ((d ≡ fire stop_loss last) × (last ≤ 9800)
              ⊎ ((target : ℕ) × (position.take_profit ≡ some target)
                  × (d ≡ fire take_profit target))
                × (9800 < last)
                × (false ≡ false)
                × (10300 ≤ last)
              ⊎ (is_fire d ≡ false) × (9800 < last) × ((false ≡ true) ⊎ (last < 10300))))

evaluate_follows_rules_example : RulesAt 9700
evaluate_follows_rules_example = evaluate_follows_rules engine (quote 9700) position

stop_only_tightens_example :
    (r' : Row) × ((s' : ℕ) × (check_all memory engine 5
          ((quote 10200, answered) ∷ (quote 10150, answered) ∷ [])
          book
          5
        ≡ some r')
      × (r'.stop_price ≡ some s')
      × (9800 ≤ s')
      × (r'.direction ≡ long)
      × (r'.quantity ≡ some (pos 10))
      × (r'.exit_order_id ≡ none)
      × ((false ≡ false) ⊎ (is_trailing r'.exit_state ≡ true)))
stop_only_tightens_example =
    stop_only_tightens memory engine 5 ((quote 10200, answered) ∷ (quote 10150, answered) ∷ []) book
      held 9800 refl refl

abbrev router : Router
router = record { mode = live; has_broker = true; live_enabled = true; has_order_manager = true }

abbrev good : Course Rows
good = record {
  lock_fate = answered;
  broker = placed;
  release_fate = answered;
  fill_raises = false;
  fill = λ t. t;
}

-- The order is out, but the call raises.
abbrev raising : Course Rows
raising = record good { broker = lost }

abbrev storm : List (Step memory)
storm =
    exits router request raising refl refl
    ∷ exits router request good refl refl
    ∷ moves_stop 5 10138 answered
    ∷ exits router request good refl refl
    ∷ []

two_orders_go_out : orders_at_large memory 5 storm book ≡ 2
unfolding orders_at_large route route_live acquire_exit_lock release_exit_lock write_trailing_stop
two_orders_go_out = refl

one_exit_at_large_example :
    orders_at_large memory 5 storm book + as_number false ≤ 1 + unsure_orders memory 5 storm book
one_exit_at_large_example = one_exit_at_large memory 5 storm book

raised_exit_retries_example :
    let d = route memory router request raising book in
    let d' = route memory router request good d.table in
    (d.result ≡ false)
    × (d.table 5 ≡ some (untriggered held))
    × (d'.result ≡ true)
    × (as_number (is_at_large d.sent) + as_number (is_at_large d'.sent) ≡ 2)
raised_exit_retries_example =
    raised_exit_retries memory router request raising good book (refl, refl, refl) refl refl
      (refl, refl) (inr refl) (refl, refl)

abbrev losing : Course Rows
losing = record good { lock_fate = lost_after }

lost_answer_blocks_example :
    ((route memory router request losing book).sent ≡ none)
    × (orders_at_large memory 5 storm (route memory router request losing book).table ≡ 0)
lost_answer_blocks_example =
    lost_answer_blocks memory router request losing book storm (refl, refl) refl refl
