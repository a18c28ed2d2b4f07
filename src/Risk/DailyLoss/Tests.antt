-- ===== src/Risk/DailyLoss/Tests.antt =====
-- loss_validator.py: a purchase, a sale of more than was bought, a replay, and an interruption.
use quant_embrace_v.Common.{
  if◌then◌else◌, ℕ, ◌+◌, ◌*◌, ◌≡◌, refl, false, some, [], ◌∷◌, pos, negsuc, above, below,
}
use quant_embrace_v.Execution.Orders.Database.{lost_before}
use quant_embrace_v.Risk.Signals.{buy, sell, Direction}
use quant_embrace_v.Risk.DailyLoss.{get_unrealized_pnl, sum_unrealized}
use quant_embrace_v.Risk.DailyLoss.Fills.{
  Key, key_eq, fill_key, fill_row, symbol_key, day_key, nav_key, symbol_row, day_row, nav_row,
  fill_symbol, Fates, raised, counted, apply_fill_to_daily_symbol_pnl, update_daily_pnl_and_nav,
  count_fill, record_fill,
}
use quant_embrace_v.Risk.DailyLoss.Balance.{row, long_cost, short_cost, closing_balances}
use quant_embrace_v.Risk.DailyLoss.Accounting.{
  Call, do_call, run, is_reserved, Ignored, counted_once,
}
use quant_embrace_v.Risk.DailyLoss.Counting.{interrupted_fill_lost, counted_in_full}
use quant_embrace_v.Risk.DailyLoss.Samples.{Rows, memory, empty, all_seen, reads, books}

abbrev call_of : ℕ → Direction → ℕ → ℕ → Fates → Call
call_of id d q p f = record {
  now = 9;
  today = 20;
  opening = 1000;
  reads = reads;
  fates = f;
  fill = record { fill_id = id; symbol = 7; direction = d; quantity = q; price = p };
}

abbrev bought : Call
bought = call_of 1 buy 10 100 all_seen

abbrev sold : Call
sold = call_of 2 sell 15 90 all_seen

abbrev after : Rows
after = (run memory (bought ∷ sold ∷ []) books empty).1

day_after : after (day_key 20) ≡ some (day_row (negsuc 99))
unfolding run record_fill count_fill apply_fill_to_daily_symbol_pnl update_daily_pnl_and_nav
    fill_symbol get_unrealized_pnl sum_unrealized
day_after = refl

symbol_after : after (symbol_key 20 7) ≡ some (symbol_row (row (negsuc 4) 90 (negsuc 99)))
unfolding run record_fill count_fill apply_fill_to_daily_symbol_pnl update_daily_pnl_and_nav
    fill_symbol get_unrealized_pnl sum_unrealized
symbol_after = refl

closing_balances_example :
    (let (r', d) = fill_symbol sell 15 90 (row (pos 10) 100 (pos 0)) in
      90 * 15 + long_cost r' + below d ≡ 10 * 100 + short_cost r' + above d)
    × (let (r', d) = fill_symbol buy 15 90 (row (negsuc 9) 100 (pos 0)) in
        90 * 15 + short_cost r' + above d ≡ 10 * 100 + long_cost r' + below d)
closing_balances_example = closing_balances 15 90 9 100 (pos 0)

counted_once_example :
    let later =
      (run memory
        (sold ∷ [])
        (do_call memory bought books empty).0
        (do_call memory bought books empty).2).1 in
    Ignored memory later (do_call memory bought books later)
counted_once_example =
    counted_once memory bought bought (sold ∷ []) books books empty refl refl refl refl

abbrev cut_off : Call
cut_off = call_of 3 sell 5 80 (record all_seen { of_symbol = lost_before })

third_is_new : is_reserved memory 3 after ≡ false
unfolding run record_fill count_fill apply_fill_to_daily_symbol_pnl update_daily_pnl_and_nav
    fill_symbol get_unrealized_pnl sum_unrealized
third_is_new = refl

interrupted_fill_lost_example :
    let (b', answer, t') = do_call memory cut_off books after in
    (answer ≡ raised)
    × ((k : Key) → t' k ≡ (if key_eq (fill_key 3) k then some fill_row else after k))
    × Ignored memory
        (run memory (sold ∷ []) b' t').1
        (do_call memory (call_of 3 sell 5 80 all_seen) books (run memory (sold ∷ []) b' t').1)
interrupted_fill_lost_example =
    interrupted_fill_lost memory cut_off (call_of 3 sell 5 80 all_seen) (sold ∷ []) books books
      after refl refl refl refl third_is_new refl

counted_in_full_example :
    let (b', answer, t') = do_call memory bought books empty in
    (answer ≡ counted (pos 0) (pos 20))
    × (t' (symbol_key 20 7) ≡ some (symbol_row (row (pos 10) 100 (pos 0))))
    × (t' (day_key 20) ≡ some (day_row (pos 0)))
    × (t' nav_key ≡ some (nav_row (pos 1000)))
unfolding fill_symbol get_unrealized_pnl sum_unrealized
counted_in_full_example =
    counted_in_full memory bought books empty (pos 20) refl refl (refl, refl, refl, refl) refl refl
