-- ===== src/TradeAccount/Requests.antt =====
-- Opening and closing: an order is sent, and the caller waits until it is acknowledged. What the
-- threads of the exchange's library do meanwhile is the argument `wake`. The answer is none while the
-- wait has not ended, and the number 0 for a failure. The memory is taken not to run out.
use tradingapp.Prelude.{
  ℕ, ◌/◌, Bool, true, false, not, ◌||◌, Option, none, some, ltb, lookup, if◌then◌else◌,
}
use tradingapp.Prelude.Int.{pos, ◌+ℤ◌}
use tradingapp.Double.{Double, zero_point}
use tradingapp.Order.{OrderInfo, new_request, acknowledged, TradeDone, open_fill, close_fill}
use tradingapp.OrderAccount.{OrderAccount, Gateway, open_order, close_order, with_id, without}
use tradingapp.TradeAccount.State.{TradeAccount, release, mmf_price}

abbrev pub maximum_order_limit : ℕ
maximum_order_limit = 5000

module _ {F : Type 0} where
  -- `waitAcknowledgement`, and the count of live shares after it.
  unfoldable pub wait_acknowledgement :
      ℕ → (TradeAccount F → TradeAccount F) → TradeAccount F → Option (TradeAccount F × ℕ)
  wait_acknowledgement id count t = elim (lookup id t.account.objects) [
    | none ↦ none
    | some o ↦
        if not (acknowledged o)
        then none
        else if not o.is_acknowledged
        then some (t, 0)
        else some (count (record t { orders = with_id id t.orders }), id)
  ]

  abbrev pub count_open : ℕ → TradeAccount F → TradeAccount F
  count_open size t = record t { totalopen = t.totalopen +ℤ pos size }

  abbrev pub count_close : ℕ → TradeAccount F → TradeAccount F
  count_close size t = record t { totalclose = t.totalclose +ℤ pos size }

  abbrev pub after_sending :
      (TradeAccount F → TradeAccount F)
      → (TradeAccount F → TradeAccount F)
      → TradeAccount F
      → OrderAccount F × Option ℕ
      → Option (TradeAccount F × ℕ)
  after_sending wake count t (account, none) = some (record t { account = account }, 0)
  after_sending wake count t (account, some id) =
      wait_acknowledgement id count (wake (record t { account = account }))

  -- The callbacks that every request carries.
  abbrev pub with_callbacks : OrderInfo F → OrderInfo F
  with_callbacks o = record o { on_acknowledgement = true; on_order_done = true }

module _ {F : Type 0} (gw : Gateway F) (wake : TradeAccount F → TradeAccount F) where
  abbrev pub send_open : OrderInfo F → TradeAccount F → Option (TradeAccount F × ℕ)
  send_open o t = after_sending wake (count_open o.size) t (open_order gw o t.account)

  abbrev pub send_close : OrderInfo F → TradeAccount F → Option (TradeAccount F × ℕ)
  send_close o t = after_sending wake (count_close o.size) t (close_order gw o t.account)

module _ {F : Type 0} ⦃d : Double F⦄ where
  open d use {le}

  abbrev pub is_refused : F → ℕ → Bool
  is_refused price size = le price zero_point || ltb maximum_order_limit size

module _ {F : Type 0} ⦃d : Double F⦄ (gw : Gateway F) (wake : TradeAccount F → TradeAccount F) where
  -- `open(price, size, send_mmf)`
  unfoldable pub open_position : F → ℕ → Bool → TradeAccount F → Option (TradeAccount F × ℕ)
  unfolding wait_acknowledgement
  open_position price size send_mmf t =
      let lots = size / t.divisor in
      let o : OrderInfo F = record (with_callbacks (new_request lots price)) {
        send_mmf_on_fills = send_mmf;
        is_trade_done_define = false;
        on_fill = some open_fill;
      } in
      if is_refused price lots then some (t, 0) else send_open gw wake o t

  -- `open(price, size, trade_done)`
  unfoldable pub open_with_done : F → ℕ → TradeDone → TradeAccount F → Option (TradeAccount F × ℕ)
  unfolding wait_acknowledgement
  open_with_done price size trade_done t =
      let lots = size / t.divisor in
      let o : OrderInfo F = record (with_callbacks (new_request lots price)) {
        trade_done_function = trade_done;
        on_fill = some open_fill;
      } in
      if is_refused price lots then some (t, 0) else send_open gw wake o t

  -- `close(price, size, is_fco)`
  unfoldable pub close_position : F → ℕ → Bool → TradeAccount F → Option (TradeAccount F × ℕ)
  unfolding wait_acknowledgement
  close_position price size is_fco t =
      let lots = size / t.divisor in
      let o : OrderInfo F = record (with_callbacks (new_request lots price)) {
        is_fco = is_fco;
        is_trade_done_define = false;
        on_fill = some close_fill;
      } in
      if is_refused price lots then some (t, 0) else send_close gw wake o t

  -- `close(price, size, trade_done)`
  unfoldable pub close_with_done : F → ℕ → TradeDone → TradeAccount F → Option (TradeAccount F × ℕ)
  unfolding wait_acknowledgement
  close_with_done price size trade_done t =
      let lots = size / t.divisor in
      let o : OrderInfo F = record (with_callbacks (new_request lots price)) {
        trade_done_function = trade_done;
        on_fill = some close_fill;
      } in
      if is_refused price lots then some (t, 0) else send_close gw wake o t

  -- `close(price, size, open_order)`: the size is not divided, and the price is the account's own.
  unfoldable pub close_mmf : F → ℕ → ℕ → TradeAccount F → Option (TradeAccount F × ℕ)
  unfolding wait_acknowledgement
  close_mmf price size opening t =
      let o : OrderInfo F = record (with_callbacks (new_request size (mmf_price t))) {
        is_mmf = true;
        open_order = some opening;
        on_fill = some close_fill;
      } in
      if is_refused price size then some (t, 0) else send_close gw wake o t

-- What a trade case does when an order is done is the argument `trade_done`.
module _ {F : Type 0} (trade_done : TradeDone → F → ℕ → TradeAccount F → TradeAccount F) where
  unfoldable pub on_order_done : ℕ → OrderInfo F → TradeAccount F → TradeAccount F
  unfolding release
  on_order_done id o t =
      let told =
        if o.is_trade_done_define
        then trade_done o.trade_done_function o.price_double o.size t
        else t in
      let counted = record told { total_executed = told.total_executed +ℤ pos o.size } in
      let released = release o.account_type o.type o.size counted in
      record released { orders = without id released.orders }
