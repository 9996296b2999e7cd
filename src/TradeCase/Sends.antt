-- ===== src/TradeCase/Sends.antt =====
-- The orders that the first steps of the cases send.
use tradingapp.Prelude.{
  ℕ, ◌+◌, ◌/◌, ◌^◌, ◌≤◌, ◌<◌, ◌≡◌, true, false, ◌&&◌, some, ltb, ◌==◌, arith, inl, inr, Bool-cases,
  Option-cases,
}
use tradingapp.Prelude.Int.{pos, ◌+ℤ◌, to_u32}
use tradingapp.Double.{Double, zero_point}
use tradingapp.OrderAccount.{Gateway}
use tradingapp.OrderAccount.Ids.{IsConsistent}
use tradingapp.TradeAccount.State.{TradeAccount, get_position, sizeof_close_order_with_pnl}
use tradingapp.TradeAccount.Requests.{open_position, close_position}
use tradingapp.TradeAccount.Waiting.{IsQuiet}
use tradingapp.TradeAccount.LiveCount.{open_position-OpensLive, close_position-ClosesLive}
use tradingapp.TradeInstance.State.{
  state_price_change, Side, TradeInstance, account_of, opposite_of, send_price,
}
use tradingapp.TradeInstance.Prices.{close_price}
use tradingapp.TradeCase.{curr_pos}
use tradingapp.TradeCase.Hedge.{HedgeCurrent, hedge_init, lack}
use tradingapp.TradeCase.Profit.{TradeCase9, case9_init, case9_close}

module _ {F : Type 0} where
  -- Between two instances only the current account has changed.
  abbrev pub KeepsOpposite : Side → TradeInstance F → TradeInstance F → Type 0
  KeepsOpposite side t u = opposite_of side u ≡ opposite_of side t

  -- The current account has `size` more lots that open in the market, or that close.
  abbrev pub MoreOpen : Side → ℕ → TradeInstance F → TradeInstance F → Type 0
  MoreOpen side size t u =
      ((account_of side u).totalopen ≡ (account_of side t).totalopen +ℤ pos size)
      × ((account_of side u).totalclose ≡ (account_of side t).totalclose)

  abbrev pub MoreClose : Side → ℕ → TradeInstance F → TradeInstance F → Type 0
  MoreClose side size t u =
      ((account_of side u).totalopen ≡ (account_of side t).totalopen)
      × ((account_of side u).totalclose ≡ (account_of side t).totalclose +ℤ pos size)

module _ {F : Type 0} ⦃d : Double F⦄ (gw : Gateway F) (wake : TradeAccount F → TradeAccount F)
    (quiet : IsQuiet wake) (side : Side) (t : TradeInstance F)
    (v : IsConsistent (account_of side t).account)
    (room : (account_of side t).account.request_id_generator + 1 < 2 ^ 32) where
  open d use {lt, le}

  -- A hedge whose order got a number has opened, in the current account, the lots of exactly what
  -- that holds less than the opposite one, at a positive price; the opposite account is as before.
  pub hedge_init-opens :
      (c q : HedgeCurrent F) (u : TradeInstance F)
      → c.base.side ≡ side
      → hedge_init gw wake c t ≡ some (q, u)
      → q.base.state ≡ state_price_change
      → 0 < q.base.main_order_id
      → MoreOpen side (lack side t / (account_of side t).divisor) t u
        × KeepsOpposite side t u
        × (q.ho_size ≡ lack side t)
        × (0 < q.ho_size)
        × (lt zero_point q.base.send_price ≡ true)
  unfolding hedge_init
  hedge_init-opens c q u same e going numbered =
      let size = lack side t in
      let price = send_price size t in
      elim (Bool-cases (ltb 0 size && lt zero_point price)) [
        | inr fails ↦ ground (arith, same)
        | inl asks ↦
            elim (Option-cases (open_position gw wake price size false (account_of side t))) [
              | inl lost ↦ ground (arith, same)
              | inr ((a, id), found) ↦
                  let live =
                    open_position-OpensLive gw wake quiet (account_of side t) v room price size a
                      id in
                  let (opened, closed, _, _) = (live (ground arith)).0 false found in
                  ground (arith, same, opened, closed)
            ]
      ]

  case9_close-closes :
      (price : F) (size : ℕ) (c q : TradeCase9 F) (u : TradeInstance F)
      → c.base.side ≡ side
      → case9_close gw wake price size c t ≡ some (q, u)
      → q.base.state ≡ state_price_change
      → MoreClose side (size / (account_of side t).divisor) t u
        × KeepsOpposite side t u
        × (q.close_size ≡ size)
        × (0 < size)
        × (q.base.send_price ≡ c.base.send_price)
  unfolding case9_close
  case9_close-closes price size c q u same e going = elim (Bool-cases (size == 0)) [
    | inl nothing ↦ ground (arith, same)
    | inr some_shares ↦
        elim (Option-cases (close_position gw wake price size false (account_of side t))) [
          | inl lost ↦ ground (arith, same)
          | inr ((a, id), found) ↦ elim (Bool-cases (id == 0)) [
            | inl failed ↦ ground (arith, same)
            | inr sent ↦
                let account = account_of side t in
                let live = close_position-ClosesLive gw wake quiet account v room price size a id in
                let (opened, closed, _, _) = (live (ground arith)).0 false found in
                ground (arith, same, opened, closed)
          ]
        ]
  ]

  -- A case 9 that goes on has sent an order for the shares in profit at its price, which is positive:
  -- no more than the position, at least one share, and as many lots more that close in the market.
  -- The opposite account is as before.
  pub case9_init-closes :
      (c q : TradeCase9 F) (u : TradeInstance F)
      → c.base.side ≡ side
      → case9_init gw wake c t ≡ some (q, u)
      → q.base.state ≡ state_price_change
      → MoreClose side (q.close_size / (account_of side t).divisor) t u
        × KeepsOpposite side t u
        × (q.close_size ≡ (sizeof_close_order_with_pnl q.base.send_price (account_of side t)).0)
        × (q.close_size ≤ to_u32 (get_position (account_of side t)))
        × (0 < q.close_size)
        × (le q.base.send_price zero_point ≡ false)
  unfolding case9_init sizeof_close_order_with_pnl
  case9_init-closes c q u same e going =
      let price = close_price (to_u32 (curr_pos side t)) zero_point t in
      let priced = record c { base = record c.base { send_price = price } } in
      let size = (sizeof_close_order_with_pnl price (account_of side t)).0 in
      elim (Bool-cases (le price zero_point)) [
        | inl refused ↦ ground (arith, same)
        | inr positive ↦
            let sent : case9_close gw wake price size priced t ≡ some (q, u) =
              ground (arith, same) in
            let (live, kept, sized, some_shares, priced_same) =
              case9_close-closes price size priced q u same sent going in
            ground (arith, live.0, live.1, kept, sized, some_shares, priced_same)
      ]
