-- ===== src/Symbol/Samples.antt =====
-- A symbol over whole price units, for the tests.
use tradingapp.Prelude.{true, []}
use tradingapp.Prelude.Int.{ℤ, pos, negsuc}
use tradingapp.Symbol.{Symbol}

-- A symbol before any data.
abbrev pub new_symbol : Symbol ℤ
new_symbol = record {
  start_interval = true;
  open_price = negsuc 0;
  min_price = negsuc 0;
  max_price = negsuc 0;
  close_price = negsuc 0;
  open_price_prev = negsuc 0;
  min_price_prev = negsuc 0;
  max_price_prev = negsuc 0;
  close_price_prev = negsuc 0;
  now = record {
    price_estimate1 = negsuc 0;
    price_estimate2 = negsuc 0;
    instrument_skew = pos 0;
    bid_size = 0;
    bid_price = pos 0;
    ask_size = 0;
    ask_price = pos 0;
  };
  symbol_stack = [];
}
