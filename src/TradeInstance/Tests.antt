-- ===== src/TradeInstance/Tests.antt =====
-- Runs of an instance over whole price units, and the theorems at concrete instances.
use tradingapp.Prelude.{
  lookup, update, emplace, arith, ◌≡◌, refl, Bool, false, none, some, List, [], ◌∷◌,
}
use tradingapp.Prelude.Int.{ℤ, pos, ◌+ℤ◌, ◌-ℤ◌, ◌*ℤ◌, to_u32}
use tradingapp.Double.Units.{int_double}
use tradingapp.TradeAccount.Samples.{
  idle, idle_short, willing, acknowledging, acknowledging-IsQuiet,
}
use tradingapp.TradeAccount.Requests.{close_position, wait_acknowledgement}
use tradingapp.OrderAccount.{close_order, limit_order}
use tradingapp.Order.{acknowledged}
use tradingapp.Prelude.Word.{add32}
use tradingapp.TradeInstance.State.{state_init, long_side, TradeInstance}
use tradingapp.TradeInstance.Samples.{stamp, started, quoted, uneven, idle_short-IsConsistent}
use tradingapp.TradeInstance.Selection.{Thread}
use tradingapp.TradeInstance.Processing.{events, Event, market, command, exchange, ask_panic_close}
use tradingapp.TradeInstance.PanicClose.{
  PanicClose, panic_init, panic_from, send_excess, lesser_side, panic_init-closes,
}
use tradingapp.TradeInstance.Prices.{open_price, close_price, raised_price, lowered_price}

-- An instance that owns no case yet, with one share round.
abbrev begins : Thread ℤ
begins = record {
  instance = record started { share_rounds = record { increments = 1; position = 5 } ∷ [] };
  owned = none;
}

-- Case 4 opens five shares, of which three are executed. The panic close that the user then asks for
-- sends them back.
abbrev day : List (Event ℤ)
day =
    market (stamp 100)
    ∷ exchange idle_short (record idle { total = pos 3 })
    ∷ command ask_panic_close
    ∷ market (stamp 101)
    ∷ []

abbrev evening : Thread ℤ × Bool
evening = elim (events willing acknowledging day begins) [ none ↦ (begins, false) | some r ↦ r ]

open_price_run : open_price 401 (pos 0) quoted ≡ pos 101
unfolding open_price raised_price ◌-ℤ◌ ◌*ℤ◌
open_price_run = refl

close_price_run : close_price 401 (pos 100) quoted ≡ pos 100
unfolding close_price lowered_price ◌-ℤ◌ ◌*ℤ◌
close_price_run = refl

abbrev fresh_close : PanicClose ℤ
fresh_close = record {
  state = state_init;
  send_price = pos 0;
  main_order_id = 0;
  close_size = 0;
  side = none;
}

abbrev begun : PanicClose ℤ × TradeInstance ℤ
begun = elim (panic_init willing acknowledging fresh_close uneven) [
  | none ↦ (fresh_close, uneven)
  | some r ↦ r
]

panic_init-closes_example : begun.1.short_acc.totalclose ≡ pos 0 +ℤ pos 4
unfolding panic_from send_excess lesser_side close_position close_order limit_order add32
    wait_acknowledgement acknowledged lookup update emplace ◌*ℤ◌ ◌-ℤ◌ to_u32
panic_init-closes_example =
    (panic_init-closes willing acknowledging long_side fresh_close begun.0 uneven begun.1
      acknowledging-IsQuiet idle_short-IsConsistent (omega arith) refl refl refl).0
