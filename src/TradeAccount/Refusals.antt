-- ===== src/TradeAccount/Refusals.antt =====
-- Which requests are never sent.
use tradingapp.Prelude.{ℕ, ◌/◌, ◌<◌, ◌≡◌, ◌⊎◌, Bool, true, none, some, arith, if◌then◌else◌}
use tradingapp.Double.{Double, zero_point}
use tradingapp.Order.{OrderInfo, TradeDone}
use tradingapp.OrderAccount.{OrderAccount, Gateway, limit_order, open_order, close_order}
use tradingapp.TradeAccount.State.{TradeAccount}
use tradingapp.TradeAccount.Requests.{
  open_position, open_with_done, close_position, close_with_done, send_open, send_close, is_refused,
}

module _ {F : Type 0} ⦃d : Double F⦄ (gw : Gateway F) (wake : TradeAccount F → TradeAccount F) where
  open d use {le}

  open_order-large :
      (o : OrderInfo F) (a : OrderAccount F) → 30 < o.size → open_order gw o a ≡ (a, none)
  unfolding open_order limit_order
  open_order-large o a h = ground arith

  close_order-large :
      (o : OrderInfo F) (a : OrderAccount F) → 30 < o.size → close_order gw o a ≡ (a, none)
  unfolding close_order limit_order
  close_order-large o a h = ground arith

  send_open-large :
      (o : OrderInfo F) (t : TradeAccount F) → 30 < o.size → send_open gw wake o t ≡ some (t, 0)
  send_open-large o t h = rw (open_order-large o t.account h)

  send_close-large :
      (o : OrderInfo F) (t : TradeAccount F) → 30 < o.size → send_close gw wake o t ≡ some (t, 0)
  send_close-large o t h = rw (close_order-large o t.account h)

  refused :
      (price : F) (o : OrderInfo F) (t : TradeAccount F)
      → (le price zero_point ≡ true) ⊎ (30 < o.size)
      → ((if is_refused price o.size then some (t, 0) else send_open gw wake o t) ≡ some (t, 0))
        × ((if is_refused price o.size then some (t, 0) else send_close gw wake o t) ≡ some (t, 0))
  refused price o t h = ground (arith, send_open-large o t, send_close-large o t)

  -- A request whose price is not positive, or that has more than 30 lots, changes nothing and
  -- answers 0, whichever way it opens or closes: the limit of 5000 lots that the account itself
  -- checks is never the one that decides. A closing request for an opening order does not divide its
  -- size into lots, and takes another price.
  pub requests-refused :
      (price : F) (size : ℕ) (t : TradeAccount F)
      → (le price zero_point ≡ true) ⊎ (30 < size / t.divisor)
      → ((send_mmf : Bool) → open_position gw wake price size send_mmf t ≡ some (t, 0))
        × ((f : TradeDone) → open_with_done gw wake price size f t ≡ some (t, 0))
        × ((is_fco : Bool) → close_position gw wake price size is_fco t ≡ some (t, 0))
        × ((f : TradeDone) → close_with_done gw wake price size f t ≡ some (t, 0))
  unfolding open_position open_with_done close_position close_with_done
  requests-refused price size t h = (
    λ b. (refused price _ t h).0,
    λ f. (refused price _ t h).0,
    λ b. (refused price _ t h).1,
    λ f. (refused price _ t h).1,
  )
