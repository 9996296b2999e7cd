-- ===== src/TradeAccount/Pending.antt =====
-- The queue of requests that wait to be sent, its head first.
use tradingapp.Prelude.{
  ℕ, true, not, Option, none, some, List, [], ◌∷◌, ◌++◌, ltb, lookup, ◌==◌, if◌then◌else◌,
}
use tradingapp.Prelude.Word.{add32, mul32}
use tradingapp.Double.{Double}
use tradingapp.Order.{
  OrderInfo, new_request, RequestType, request_open, request_close, request_change, TradeDone,
}
use tradingapp.OrderAccount.{Gateway, put}
use tradingapp.TradeAccount.State.{TradeAccount, mmf_price}
use tradingapp.TradeAccount.Requests.{open_with_done, close_with_done}

module _ {F : Type 0} where
  abbrev pub push : OrderInfo F → TradeAccount F → TradeAccount F
  push o t = record t { pending_orders = t.pending_orders ++ o ∷ [] }

  unfoldable pub close_pending : F → ℕ → TradeDone → TradeAccount F → TradeAccount F
  close_pending price size trade_done t =
      push
        (record (new_request size price) {
          request_type = request_close;
          is_trade_done_define = true;
          trade_done_function = trade_done;
        })
        t

  unfoldable pub open_pending : F → ℕ → TradeDone → TradeAccount F → TradeAccount F
  open_pending price size trade_done t =
      push
        (record (new_request size price) {
          request_type = request_close;
          is_trade_done_define = true;
          trade_done_function = trade_done;
        })
        t

module _ {F : Type 0} ⦃d : Double F⦄ where
  unfoldable pub on_open_fills_with_mmf_orders :
      ℕ → OrderInfo F → ℕ → TradeAccount F → TradeAccount F
  on_open_fills_with_mmf_orders id o fill_size t =
      let request = record (new_request fill_size (mmf_price t)) {
        is_mmf = true;
        request_type = request_close;
        open_order = some id;
      } in
      if not o.send_mmf_on_fills then t else push request t

  reopen : OrderInfo F → TradeAccount F → TradeAccount F
  reopen opened t =
      push
        (record (new_request (mul32 opened.size t.divisor) opened.price_double) {
          send_mmf_on_fills = true;
          request_type = request_open;
        })
        t

  unfoldable pub on_mmf_order_fills : OrderInfo F → ℕ → TradeAccount F → TradeAccount F
  unfolding reopen
  on_mmf_order_fills o fills t = elim o.open_order [
    | none ↦ t
    | some id ↦ if not o.is_mmf then t else elim (lookup id t.account.objects) [
      | none ↦ t
      | some opened ↦
          let counted = record opened { mmf_closed = add32 opened.mmf_closed fills } in
          let noted = record t { account = put t.account id counted } in
          if ltb counted.mmf_closed counted.size then noted else reopen counted noted
    ]
  ]

  -- The other account of the symbol gets the request.
  unfoldable pub on_fc_order_fills :
      OrderInfo F → ℕ → TradeAccount F → TradeAccount F → TradeAccount F
  on_fc_order_fills o fills t other =
      let request = record (new_request (mul32 fills t.divisor) (mmf_price t)) {
        is_sco = true;
        request_type = request_close;
      } in
      if not o.is_fco then other else push request other

abbrev pub tail {ℓ} : {A : Type ℓ} → List A → List A
tail [] = []
tail (_ ∷ xs) = xs

module _ {F : Type 0} where
  -- `pop_front`
  abbrev pub drop_head : TradeAccount F → TradeAccount F
  drop_head t = record t { pending_orders = tail t.pending_orders }

  -- A request leaves the queue when it was sent.
  abbrev pub settle : Option (TradeAccount F × ℕ) → Option (TradeAccount F)
  settle none = none
  settle (some (t, id)) = some (if id == 0 then t else drop_head t)

module _ {F : Type 0} ⦃d : Double F⦄ (gw : Gateway F) (wake : TradeAccount F → TradeAccount F) where
  -- The answer is none while the wait for an acknowledgement has not ended. A request of another
  -- type is only taken off the queue.
  unfoldable pub send_request : RequestType → OrderInfo F → TradeAccount F → Option (TradeAccount F)
  send_request request_open o t =
      settle (open_with_done gw wake o.price_double o.size o.trade_done_function t)
  send_request request_close o t =
      settle (close_with_done gw wake o.price_double o.size o.trade_done_function t)
  send_request request_change o t = some (drop_head t)

  unfoldable pub send_pending_orders : TradeAccount F → Option (TradeAccount F)
  unfolding send_request
  send_pending_orders t = elim t.pending_orders [
    | [] ↦ some t
    | o ∷ rest ↦ send_request o.request_type o t
  ]
