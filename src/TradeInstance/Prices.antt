-- ===== src/TradeInstance/Prices.antt =====
-- The prices that trade cases send: `openPrice`, `closePrice`, `buyPrice` and `sellPrice` of
-- trade/TradeCase.cpp.
use tradingapp.Prelude.{ℕ, ◌≡◌, true, false, ◌&&◌, arith, if◌then◌else◌}
use tradingapp.Prelude.Int.{pos, ltb_ℤ}
use tradingapp.Double.{Double, zero_point, IsOrdered}
use tradingapp.TradeInstance.State.{
  trigger_init, trigger_positive, trigger_negative, TradeInstance, over_shares,
}

module _ {F : Type 0} ⦃d : Double F⦄ where
  open d use {of_int, sub, mul, lt, le}

  -- A purchase: at the ask price if the order takes more than is offered, else at the bid price. A
  -- present price above the bid price is kept.
  unfoldable pub raised_price : ℕ → F → TradeInstance F → F
  raised_price qto current_price t =
      let price =
        if ltb_ℤ (over_shares t.ask_size qto t) (pos 0) then t.ask_price else t.bid_price in
      if lt zero_point current_price && lt t.bid_price current_price then current_price else price

  -- A sale: at the bid price if the order is for more than is wanted, else at the ask price. A
  -- present price below the ask price is kept.
  unfoldable pub lowered_price : ℕ → F → TradeInstance F → F
  lowered_price qto current_price t =
      let price =
        if ltb_ℤ (over_shares t.bid_size qto t) (pos 0) then t.bid_price else t.ask_price in
      if lt zero_point current_price && lt current_price t.ask_price then current_price else price

  unfoldable pub open_price : ℕ → F → TradeInstance F → F
  open_price qto current_price t = elim t.trigger_state [
    | trigger_positive ↦ raised_price qto current_price t
    | trigger_negative ↦ lowered_price qto current_price t
    | trigger_init ↦ zero_point
  ]

  unfoldable pub close_price : ℕ → F → TradeInstance F → F
  close_price qto current_price t = elim t.trigger_state [
    | trigger_negative ↦ raised_price qto current_price t
    | trigger_positive ↦ lowered_price qto current_price t
    | trigger_init ↦ zero_point
  ]

  -- The difference is compared as it is, without its narrowing to an `int64_t`.
  unfoldable pub buy_price : ℕ → TradeInstance F → F
  buy_price qty t =
      if le (sub (of_int (pos t.ask_size)) (mul (of_int (pos qty)) t.multiplier)) zero_point
      then t.ask_price
      else t.bid_price

  unfoldable pub sell_price : ℕ → TradeInstance F → F
  sell_price qty t =
      if le (sub (of_int (pos t.bid_size)) (mul (of_int (pos qty)) t.multiplier)) zero_point
      then t.bid_price
      else t.ask_price

module _ {F : Type 0} ⦃d : Double F⦄ (laws : IsOrdered F) (qto : ℕ) (t : TradeInstance F) where
  open d use {lt}
  open laws use {lt_asymm}

  irreflexive : (a : F) → lt a a ≡ false
  irreflexive a = ground (arith, lt_asymm a a)

  raised_price-stable :
      (current_price : F)
      → lt zero_point t.bid_price ≡ true
      → lt t.bid_price t.ask_price ≡ true
      → raised_price qto (raised_price qto current_price t) t ≡ raised_price qto current_price t
  unfolding raised_price
  raised_price-stable current_price positive spread = ground (arith, irreflexive t.bid_price)

  lowered_price-stable :
      (current_price : F)
      → lt zero_point t.bid_price ≡ true
      → lt t.bid_price t.ask_price ≡ true
      → lowered_price qto (lowered_price qto current_price t) t ≡ lowered_price qto current_price t
  unfolding lowered_price
  lowered_price-stable current_price positive spread = ground (arith, irreflexive t.ask_price)

  -- With a positive bid price below the ask price: asking again for the price of an order that has
  -- the price just given gives that price, for opening and for closing. An order that was repriced is
  -- not repriced again while the market and the trigger stay.
  pub open_price-stable :
      (current_price : F)
      → lt zero_point t.bid_price ≡ true
      → lt t.bid_price t.ask_price ≡ true
      → (open_price qto (open_price qto current_price t) t ≡ open_price qto current_price t)
        × (close_price qto (close_price qto current_price t) t ≡ close_price qto current_price t)
  unfolding open_price close_price
  open_price-stable current_price positive spread =
      let raised = raised_price-stable current_price positive spread in
      let lowered = lowered_price-stable current_price positive spread in ground arith
