-- ===== src/TradeAccount/Queue.antt =====
-- The queue of requests: what sending does to it, and what blocks it.
use tradingapp.Prelude.{
  ℕ, ◌+◌, ◌/◌, ◌^◌, ◌<◌, ◌≡◌, ◌⊎◌, inl, inr, refl, Bool, true, false, Option, none, some,
  Option-cases, Bool-cases, List, [], ◌∷◌, arith, if◌then◌else◌, ◌==◌,
}
use tradingapp.Double.{Double, zero_point}
use tradingapp.Order.{
  OrderInfo, RequestType, request_open, request_close, request_change, TradeDone,
}
use tradingapp.OrderAccount.{OrderAccount, Gateway, with_id}
use tradingapp.TradeAccount.State.{TradeAccount}
use tradingapp.TradeAccount.Requests.{
  wait_acknowledgement, after_sending, open_with_done, close_with_done, send_open, send_close,
  count_open, count_close,
}
use tradingapp.TradeAccount.Pending.{send_request, send_pending_orders, open_pending, settle, tail}
use tradingapp.TradeAccount.Refusals.{requests-refused}
use tradingapp.TradeAccount.Waiting.{IsQuiet}
use tradingapp.TradeAccount.LiveCount.{close_position-ClosesLive}
use tradingapp.OrderAccount.Ids.{IsConsistent}
use tradingapp.Prelude.Int.{pos, ◌+ℤ◌}

module _ {F : Type 0} ⦃d : Double F⦄ (gw : Gateway F) (wake : TradeAccount F → TradeAccount F) where
  open d use {le}

  -- The fault. While the first request of the queue opens or closes with a price that is not
  -- positive, or has more than 30 lots, sending the queue changes nothing, so that the request stays
  -- first and no other is ever sent.
  pub send_pending_orders-blocked :
      (t : TradeAccount F) (o : OrderInfo F) (rest : List (OrderInfo F))
      → t.pending_orders ≡ o ∷ rest
      → (o.request_type ≡ request_open) ⊎ (o.request_type ≡ request_close)
      → (le o.price_double zero_point ≡ true) ⊎ (30 < o.size / t.divisor)
      → send_pending_orders gw wake t ≡ some t
  unfolding send_pending_orders
  send_pending_orders-blocked t o rest first kind bad =
      let (_, opens, _, closes) = requests-refused gw wake o.price_double o.size t bad in
      rw first (ground (arith, opens o.trade_done_function, closes o.trade_done_function))

  after_sending-pending :
      (count : TradeAccount F → TradeAccount F)
      → ((t : TradeAccount F) → (count t).pending_orders ≡ t.pending_orders)
      → ((t : TradeAccount F) → (wake t).pending_orders ≡ t.pending_orders)
      → (t u : TradeAccount F) (r : OrderAccount F × Option ℕ) (k : ℕ)
      → after_sending wake count t r ≡ some (u, k)
      → u.pending_orders ≡ t.pending_orders
  unfolding wait_acknowledgement
  after_sending-pending count counts quiet t u (a, none) k e = ground arith
  after_sending-pending count counts quiet t u (a, some id) k e =
      let told = record t { account = a } in
      ground
        (arith, quiet told, counts (record (wake told) { orders = with_id id (wake told).orders }))

  -- The same behind the check of a request.
  checked-pending :
      (refused : Bool)
      → ((t : TradeAccount F) → (wake t).pending_orders ≡ t.pending_orders)
      → (t u : TradeAccount F) (o : OrderInfo F) (k : ℕ)
      → ((if refused then some (t, 0) else send_open gw wake o t) ≡ some (u, k)
          → u.pending_orders ≡ t.pending_orders)
        × ((if refused then some (t, 0) else send_close gw wake o t) ≡ some (u, k)
            → u.pending_orders ≡ t.pending_orders)
  checked-pending true quiet t u o k = (λ e. ground arith, λ e. ground arith)
  checked-pending false quiet t u o k = (
    λ e. after_sending-pending (count_open o.size) (λ _. refl) quiet t u _ k e,
    λ e. after_sending-pending (count_close o.size) (λ _. refl) quiet t u _ k e,
  )

  with_done-pending :
      ((t : TradeAccount F) → (wake t).pending_orders ≡ t.pending_orders)
      → (price : F) (size : ℕ) (f : TradeDone) (t u : TradeAccount F) (k : ℕ)
      → (open_with_done gw wake price size f t ≡ some (u, k) → u.pending_orders ≡ t.pending_orders)
        × (close_with_done gw wake price size f t ≡ some (u, k)
            → u.pending_orders ≡ t.pending_orders)
  unfolding open_with_done close_with_done
  with_done-pending quiet price size f t u k =
      (λ e. (checked-pending _ quiet t u _ k).0 e, λ e. (checked-pending _ quiet t u _ k).1 e)

  settle-pops :
      (t : TradeAccount F) (r : Option (TradeAccount F × ℕ)) (u : TradeAccount F)
      → ((v : TradeAccount F) (k : ℕ) → r ≡ some (v, k) → v.pending_orders ≡ t.pending_orders)
      → settle r ≡ some u
      → (u.pending_orders ≡ t.pending_orders) ⊎ (u.pending_orders ≡ tail t.pending_orders)
  settle-pops t none u kept e = ground arith
  settle-pops t (some (v, k)) u kept e = let same = kept v k refl in ground arith

  send_request-pops :
      ((t : TradeAccount F) → (wake t).pending_orders ≡ t.pending_orders)
      → (kind : RequestType) (o : OrderInfo F) (t u : TradeAccount F)
      → send_request gw wake kind o t ≡ some u
      → (u.pending_orders ≡ t.pending_orders) ⊎ (u.pending_orders ≡ tail t.pending_orders)
  unfolding send_request
  send_request-pops quiet request_open o t u h =
      settle-pops t _ u (λ v k s. (with_done-pending quiet _ _ _ t v k).0 s) h
  send_request-pops quiet request_close o t u h =
      settle-pops t _ u (λ v k s. (with_done-pending quiet _ _ _ t v k).1 s) h
  send_request-pops quiet request_change o t u h = ground arith

  -- One call of `sendPendingOrders` that comes to an end, when no message of the wait queues a
  -- request: the queue is as before, or it has lost its first request, and the others keep their
  -- order.
  pub send_pending_orders-pops :
      ((t : TradeAccount F) → (wake t).pending_orders ≡ t.pending_orders)
      → (t u : TradeAccount F) → send_pending_orders gw wake t ≡ some u
      → (u.pending_orders ≡ t.pending_orders) ⊎ (u.pending_orders ≡ tail t.pending_orders)
  unfolding send_pending_orders
  send_pending_orders-pops quiet t u e = pops t.pending_orders refl
    where
      pops :
          (queue : List (OrderInfo F))
          → t.pending_orders ≡ queue
          → (u.pending_orders ≡ t.pending_orders) ⊎ (u.pending_orders ≡ tail t.pending_orders)
      pops [] q = ground arith
      pops (o ∷ rest) q = send_request-pops quiet o.request_type o t u (ground arith)

  -- The fault. A request that `openPending` puts on an empty queue closes: on a consistent account
  -- whose generator of numbers does not wrap, while the messages of the wait end no order and queue
  -- none, once the queue is empty again the live shares that close have grown by its lots, and those
  -- that open have not.
  pub open_pending-closes :
      IsQuiet wake
      → ((t : TradeAccount F) → (wake t).pending_orders ≡ t.pending_orders)
      → (price : F) (size : ℕ) (f : TradeDone) (t u : TradeAccount F) → IsConsistent t.account
      → t.account.request_id_generator + 1 < 2 ^ 32
      → t.pending_orders ≡ []
      → send_pending_orders gw wake (open_pending price size f t) ≡ some u
      → u.pending_orders ≡ []
      → (u.totalopen ≡ t.totalopen) × (u.totalclose ≡ t.totalclose +ℤ pos (size / t.divisor))
  unfolding send_pending_orders open_pending send_request
  open_pending-closes quiet keeps price size f t u v room empty e sent =
      let queued = open_pending price size f t in
      let result = close_with_done gw wake price size f queued in
      elim (Option-cases result) [
        | inl lost ↦ ground arith
        | inr ((w, k), answer) ↦
            let kept = (with_done-pending keeps price size f queued w k).1 answer in
            let live = close_position-ClosesLive gw wake quiet queued v room price size w k in
            elim (Bool-cases (k == 0)) [
              | inl zero ↦ ground arith
              | inr nonzero ↦
                  let (opened, closed, _, _) = (live (ground arith)).1 f answer in ground arith
            ]
      ]
