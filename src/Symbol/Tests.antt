-- ===== src/Symbol/Tests.antt =====
-- A symbol over whole price units, and the theorems at it.
use tradingapp.Prelude.{ℕ, ◌≡◌, refl, none, some, List, [], ◌∷◌, arith}
use tradingapp.Prelude.Int.{ℤ, pos, quot, ◌+ℤ◌, ◌-ℤ◌}
use tradingapp.Double.Units.{int_double, int_double-IsOrdered, div_ℤ}
use tradingapp.TradeInstance.State.{SymbolStamp, read_symbol_data}
use tradingapp.TradeInstance.Samples.{quoted}
use tradingapp.Symbol.{
  Symbol, Quote, Update, new_price, new_quote, new_skew, new_estimate, update, updates, read,
}
use tradingapp.Symbol.Samples.{new_symbol}
use tradingapp.Symbol.Currency.{updates-read}
use tradingapp.Symbol.Bars.{HasBars, updates-HasBars}

abbrev quote : ℕ → Quote ℤ
quote price = record {
  quoted_bid_size = 300;
  quoted_bid_price = pos price;
  quoted_ask_size = 100;
  quoted_ask_price = pos 120;
}

-- The estimate is the last price.
abbrev last_price : ℤ → ℤ → ℤ → ℤ → ℤ
last_price close minimum maximum open_price = close

abbrev morning : List (Update ℤ)
morning =
    new_quote (quote 100)
    ∷ new_price (pos 101)
    ∷ new_price (pos 99)
    ∷ new_quote (quote 102)
    ∷ new_estimate last_price 0
    ∷ new_skew (pos 1)
    ∷ new_quote (quote 102)
    ∷ []

abbrev read_once : SymbolStamp ℤ → SymbolStamp ℤ × Symbol ℤ
read_once stamp = elim (read (updates morning new_symbol)) [
  | none ↦ (stamp, new_symbol)
  | some r ↦ r
]

abbrev no_stamp : SymbolStamp ℤ
no_stamp = record {
  price_estimate1 = pos 0;
  price_estimate2 = pos 0;
  stamp_bid_size = 0;
  stamp_bid_price = pos 0;
  stamp_ask_size = 0;
  stamp_ask_price = pos 0;
  bar = quoted.bar0;
  bar_prev = quoted.bar1;
}

updates-read_example : (read_symbol_data (read_once no_stamp).0 quoted).bid_price ≡ pos 102
unfolding updates update read div_ℤ quot ◌+ℤ◌ ◌-ℤ◌
updates-read_example =
    (updates-read morning new_symbol (read_once no_stamp).1 (read_once no_stamp).0 quoted refl
      refl).0

updates-HasBars_example : HasBars (updates morning new_symbol)
updates-HasBars_example = updates-HasBars int_double-IsOrdered morning new_symbol (ground arith)
