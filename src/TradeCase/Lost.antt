-- ===== src/TradeCase/Lost.antt =====
-- Orders that trade cases lose, or never send.
use tradingapp.Prelude.{ℕ, ◌/◌, ◌<◌, ◌≡◌, refl, true, false, some, arith, inl, inr}
use tradingapp.Double.{Double, zero_point}
use tradingapp.OrderAccount.{Gateway, has}
use tradingapp.TradeAccount.State.{TradeAccount, sizeof_close_order_with_pnl}
use tradingapp.TradeAccount.Changes.{change, cancel}
use tradingapp.TradeAccount.Refusals.{requests-refused}
use tradingapp.TradeInstance.State.{
  state_price_change, state_done, state_wait, TradeInstance, account_of, opposite_of, send_price,
}
use tradingapp.TradeInstance.Prices.{open_price, close_price}
use tradingapp.TradeCase.{enters, is_level}
use tradingapp.TradeCase.MaxTlv.{MaxTlv, tlv_init, tlv_size}
use tradingapp.TradeCase.Hedge.{HedgeCurrent, hedge_init, hedge_reprice, lack}
use tradingapp.TradeCase.Profit.{
  CloseOppositeWithPnl, close_opposite_reprice, close_opposite_change,
}

module _ {F : Type 0} ⦃d : Double F⦄ (gw : Gateway F) (wake : TradeAccount F → TradeAccount F) where
  open d use {le, lt, eq}

  -- Numbers that an account does not know.
  change-unknown :
      (id : ℕ) (price : F) (size : ℕ) (a : TradeAccount F)
      → has id a.orders ≡ false
      → change gw wake id price size a ≡ some (a, 0)
  unfolding change
  change-unknown id price size a h = ground arith

  cancel-unknown :
      (id : ℕ) (a : TradeAccount F)
      → has id a.orders ≡ false
      → cancel gw wake id a ≡ some (a, false)
  unfolding cancel
  cancel-unknown id a h = ground arith

  -- The fault. A case that closes the opposite account with its profit, whose base class still has
  -- the order number 0 and the price 0 that its constructor gave, is done in the first repricing at
  -- another price, if the account knows no order 0: the accounts are as before, so the closing order
  -- that it sent keeps its old price in the market.
  pub close_opposite_reprice-ends :
      (c : CloseOppositeWithPnl F) (t : TradeInstance F)
      → c.base.main_order_id ≡ 0
      → eq t.trade_price c.base.send_price ≡ false
      → has 0 (opposite_of c.base.side t).orders ≡ false
      → (q : CloseOppositeWithPnl F) × (close_opposite_reprice gw wake c t ≡ some (q, t))
        × (q.base.state ≡ state_done)
        × (q.close_id ≡ c.close_id)
  unfolding close_opposite_reprice close_opposite_change
  close_opposite_reprice-ends c t e moved unknown =
      let side = c.base.side in
      let price = t.trade_price in
      let opposite = opposite_of side t in
      let size = (sizeof_close_order_with_pnl price opposite).0 in
      let changes = change-unknown 0 price size opposite unknown in
      let cancels = cancel-unknown 0 opposite unknown in
      (record c { base = enters state_done c.base }, ground (arith, changes, cancels), refl, refl)

  -- The fault. A case that closes the maximum position in both accounts sends both orders at the
  -- price that its constructor gave, and while that is not positive it changes neither account and
  -- goes on without an order.
  pub tlv_init-sends_nothing :
      (c : MaxTlv F) (t : TradeInstance F)
      → le c.base.send_price zero_point ≡ true
      → (q : MaxTlv F) × (tlv_init gw wake c t ≡ some (q, t))
        × (q.base.state ≡ state_price_change)
        × (q.curr_id ≡ 0)
        × (q.oppo_id ≡ 0)
  unfolding tlv_init
  tlv_init-sends_nothing c t refused =
      let side = c.base.side in
      let price = c.base.send_price in
      let size = tlv_size t in
      let (_, _, current, _) =
        requests-refused gw wake price size (account_of side t) (inl refused) in
      let (_, _, opposite, _) =
        requests-refused gw wake price size (opposite_of side t) (inl refused) in
      (
        record c {
          base = enters state_price_change c.base;
          curr_price = close_price size zero_point t;
          oppo_price = open_price size zero_point t;
          curr_id = 0;
          oppo_id = 0;
        },
        ground (arith, current false, opposite false),
        refl,
        refl,
        refl,
      )

  -- The fault. A hedge of more than 30 lots sends no order, but goes on with the order number 0. At
  -- the first other price it waits for that order: both steps leave the accounts as they were, if the
  -- current account knows no order 0 and the positions still differ.
  pub hedge_init-stuck :
      (c : HedgeCurrent F) (t u : TradeInstance F)
      → 30 < lack c.base.side t / (account_of c.base.side t).divisor
      → lt zero_point (send_price (lack c.base.side t) t) ≡ true
      → has 0 (account_of c.base.side u).orders ≡ false
      → is_level c.base.side u ≡ false
      → (let price = send_price (lack c.base.side t) t in
          eq (open_price (lack c.base.side t) price u) price ≡ false)
      → (q r : HedgeCurrent F) × (hedge_init gw wake c t ≡ some (q, t))
        × (q.base.state ≡ state_price_change)
        × (hedge_reprice gw wake q u ≡ some (r, u))
        × (r.base.state ≡ state_wait)
  unfolding hedge_init hedge_reprice
  hedge_init-stuck c t u large positive unknown differs moved =
      let side = c.base.side in
      let size = lack side t in
      let price = send_price size t in
      let (opens, _, _, _) = requests-refused gw wake price size (account_of side t) (inr large) in
      let new_price = open_price size price u in
      let changes = change-unknown 0 new_price 0 (account_of side u) unknown in
      let base = record c.base {
        send_price = price;
        main_order_id = 0;
        state = state_price_change;
      } in
      (
        record { base = base; ho_size = size },
        record { base = enters state_wait base; ho_size = size },
        ground (arith, opens false),
        refl,
        ground (arith, changes),
        refl,
      )
