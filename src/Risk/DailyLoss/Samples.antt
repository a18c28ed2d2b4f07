-- ===== src/Risk/DailyLoss/Samples.antt =====
-- loss_validator.py: a table in memory, its reads and fates, for the tests.
use quant_embrace_v.Common.{
  refl, not, ◌&&◌, Option, none, some, [], ◌∷◌, is_some, pos, if◌then◌else◌,
}
use quant_embrace_v.Execution.Orders.Database.{answered}
use quant_embrace_v.Risk.Limits.{defaults}
use quant_embrace_v.Risk.DailyLoss.{new, PnlReads}
use quant_embrace_v.Risk.DailyLoss.Fills.{Key, key_eq, Item, day_row, added, PnlTable, Fates, Books}

abbrev pub Rows : Type 0
Rows = Key → Option Item

abbrev pub memory : PnlTable
memory = record {
  Table = Rows;
  get_item = λ t k. t k;
  put_item = λ k i t j. if key_eq k j then some i else t j;
  put_absent = λ k i t.
      (not (is_some (t k)), λ j. if not (is_some (t k)) && key_eq k j then some i else t j);
  add_item = λ k z t j. if key_eq k j then some (day_row (added z (t k))) else t j;
  get_item-put_item = λ k i t j. refl;
  put_absent_reply = λ k i t. refl;
  get_item-put_absent = λ k i t j. refl;
  get_item-add_item = λ d z t j. refl;
}

abbrev pub empty : Rows
empty k = none

abbrev pub all_seen : Fates
all_seen = record {
  of_reserve = answered;
  of_symbol = answered;
  of_total = answered;
  of_nav = answered;
}

abbrev pub reads : PnlReads
reads = record {
  day_read = some none;
  order_pages = [];
  position_pages =
      some (record { quantity = some (pos 2); avg_price = some 50; last_price = some 60 } ∷ [])
      ∷ [];
}

abbrev pub books : Books
books = record { loss = new; limits = defaults }
