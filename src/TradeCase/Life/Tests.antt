-- ===== src/TradeCase/Life/Tests.antt =====
-- The life of a hedge: it is sent, and ends when both accounts hold the same.
use tradingapp.Prelude.{refl, none, some, lookup, update, emplace}
use tradingapp.Prelude.Int.{ℤ, ◌-ℤ◌, ◌*ℤ◌, to_u32}
use tradingapp.Prelude.Word.{add32}
use tradingapp.Double.Units.{int_double}
use tradingapp.Order.{acknowledged}
use tradingapp.OrderAccount.{open_order, limit_order}
use tradingapp.TradeAccount.Requests.{open_position, wait_acknowledgement}
use tradingapp.TradeAccount.Samples.{willing, acknowledging}
use tradingapp.TradeInstance.State.{
  case_hedge_current, state_price_change, state_done, long_side, TradeInstance, send_price,
}
use tradingapp.TradeInstance.Samples.{quoted, uneven}
use tradingapp.TradeInstance.Prices.{open_price, raised_price}
use tradingapp.TradeCase.Hedge.{hedge_init, hedge_reprice, hedge_wait}
use tradingapp.TradeCase.Owned.{
  OwnedCase, owned_7, new_case, run_owned_case, run_in, owned_init, owned_reprice,
}
use tradingapp.TradeCase.Life.Stages.{here, next, Advances, runs-advance}
use tradingapp.TradeCase.{new_base}

-- The case made for an instance whose short account holds four shares more than its long one.
abbrev made : OwnedCase ℤ
made = elim (new_case case_hedge_current long_side uneven) [
  | none ↦ owned_7 (new_base long_side uneven.trigger_state)
  | some c ↦ c
]

abbrev sent : OwnedCase ℤ × TradeInstance ℤ
sent = elim (run_owned_case willing acknowledging made uneven) [
  | none ↦ (made, uneven)
  | some r ↦ r
]

-- The next call finds two empty accounts.
abbrev ended : OwnedCase ℤ × TradeInstance ℤ
ended = elim (run_owned_case willing acknowledging sent.0 quoted) [ none ↦ sent | some r ↦ r ]

runs-advance_example : Advances state_price_change state_done
unfolding new_case run_in owned_init owned_reprice hedge_init hedge_reprice hedge_wait open_position
    open_order limit_order add32 wait_acknowledgement acknowledged lookup update emplace send_price
    ◌*ℤ◌ ◌-ℤ◌ to_u32 open_price raised_price
runs-advance_example =
    runs-advance willing acknowledging case_hedge_current long_side uneven made sent.0 ended.0 refl
      (next uneven sent.1 here refl) (next quoted ended.1 here refl)
