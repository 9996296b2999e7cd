-- ===== src/TradeCase/Outcomes.antt =====
-- What comes out of the soft close, and of the first step of case 10.
use tradingapp.Prelude.{
  ◌+◌, ◌/◌, ◌^◌, ◌<◌, ◌≡◌, ◌⊎◌, refl, true, false, some, ◌==◌, min, arith, inl, inr, Bool-cases,
  Option-cases,
}
use tradingapp.Prelude.Int.{pos, to_u32}
use tradingapp.Double.{Double, zero_point}
use tradingapp.OrderAccount.{Gateway}
use tradingapp.OrderAccount.Ids.{IsConsistent}
use tradingapp.TradeAccount.State.{TradeAccount, get_average, get_position}
use tradingapp.TradeAccount.Requests.{close_position}
use tradingapp.TradeAccount.Changes.{change}
use tradingapp.TradeAccount.Waiting.{IsQuiet}
use tradingapp.TradeAccount.LiveCount.{close_position-ClosesLive}
use tradingapp.TradeInstance.State.{
  TriggerState, state_price_change, state_failed, Side, long_side, short_side, TradeInstance,
  account_of, opposite_of,
}
use tradingapp.TradeInstance.Prices.{close_price}
use tradingapp.TradeInstance.PanicClose.{lesser_side, trigger_of, excess}
use tradingapp.TradeCase.Sends.{MoreClose, KeepsOpposite}
use tradingapp.TradeCase.SoftClose.{
  SoftClose, soft_pnl, soft_init, soft_from, soft_send, soft_reprice,
}
use tradingapp.TradeCase.Case10.{
  TradeCase10, case10_init, case10_send, case10_price, choose_account, is_opposite_closed,
}

module _ {F : Type 0} ⦃d : Double F⦄ where
  open d use {sub, lt}

  -- Closing the account opposite to a side at a price brings no gain: the short account buys at no
  -- less than its average, and the long account sells at no more.
  abbrev pub IsNoGain : Side → F → TradeAccount F → Type 0
  IsNoGain long_side price short = lt (sub price (get_average short)) zero_point ≡ false
  IsNoGain short_side price long = lt (sub (get_average long) price) zero_point ≡ false

  -- The account that holds more is as it was, or closing it at the price brings no gain.
  abbrev pub NoGain : Side → F → TradeInstance F → TradeInstance F → Type 0
  NoGain side price t u =
      (opposite_of side u ≡ opposite_of side t) ⊎ IsNoGain side price (opposite_of side t)

  soft_pnl-IsNoGain :
      (side : Side) (trigger : TriggerState) (price : F) (a : TradeAccount F)
      → trigger ≡ trigger_of side
      → lt (soft_pnl trigger price a) zero_point ≡ false
      → IsNoGain side price a
  soft_pnl-IsNoGain long_side trigger price a e h = rw e at h
  soft_pnl-IsNoGain short_side trigger price a e h = rw e at h

module _ {F : Type 0} ⦃d : Double F⦄ (gw : Gateway F) (wake : TradeAccount F → TradeAccount F)
    (side : Side) (s : SoftClose F) where
  open d use {lt}

  soft_send-NoGain :
      (q : SoftClose F) (t u : TradeInstance F)
      → t.trigger_state ≡ trigger_of side
      → soft_send gw wake side s t ≡ some (q, u)
      → NoGain side q.send_price t u
  unfolding soft_send
  soft_send-NoGain q t u trigger e =
      let size = excess side t in
      let price = close_price size zero_point t in
      let opposite = opposite_of side t in
      let tests = soft_pnl-IsNoGain side t.trigger_state price opposite trigger in
      elim (Bool-cases (lt (soft_pnl t.trigger_state price opposite) zero_point)) [
        | inl loses ↦ inl (ground arith)
        | inr gains ↦ elim (Option-cases (close_position gw wake price size false opposite)) [
          | inl lost ↦ ground arith
          | inr ((a, id), found) ↦
              let priced : q.send_price ≡ price = ground (arith, found) in
              inr (rw priced (tests gains))
        ]
      ]

  soft_reprice-NoGain :
      (q : SoftClose F) (t u : TradeInstance F)
      → t.trigger_state ≡ trigger_of side
      → soft_reprice gw wake side s t ≡ some (q, u)
      → NoGain side q.send_price t u
  unfolding soft_reprice
  soft_reprice-NoGain q t u trigger e =
      let price = close_price s.close_size zero_point t in
      let opposite = opposite_of side t in
      let tests = soft_pnl-IsNoGain side t.trigger_state price opposite trigger in
      elim (Bool-cases (lt (soft_pnl t.trigger_state price opposite) zero_point)) [
        | inl loses ↦ inl (ground arith)
        | inr gains ↦
            let no_gain : IsNoGain side price opposite = tests gains in
            elim (Option-cases (change gw wake s.main_order_id price 0 opposite)) [
              | inl lost ↦ inl (ground arith)
              | inr ((a, id), found) ↦ unchanged_or_priced price q u no_gain (ground (arith, found))
            ]
      ]
    where
      unchanged_or_priced :
          (price : F) (q : SoftClose F) (u : TradeInstance F)
          → IsNoGain side price (opposite_of side t)
          → (u ≡ t) ⊎ (q.send_price ≡ price)
          → NoGain side q.send_price t u
      unchanged_or_priced price q u no_gain (inl same) = inl (rw same refl)
      unchanged_or_priced price q u no_gain (inr priced) = inr (rw priced no_gain)

  soft_from-NoGain :
      (q : SoftClose F) (t u : TradeInstance F)
      → soft_from gw wake (some side) s t ≡ some (q, u)
      → NoGain side q.send_price t u
  unfolding soft_from
  soft_from-NoGain q t u e =
      let start = record t { trigger_state = trigger_of side } in
      ground (arith, soft_send-NoGain q start u refl e)

module _ {F : Type 0} ⦃d : Double F⦄ (gw : Gateway F) (wake : TradeAccount F → TradeAccount F)
    (side : Side) where
  -- The fault. The soft close tests its profit with the sign of the other account: where one account
  -- holds more, the first step leaves that account as it was, or its price brings that account no
  -- gain; and so does a repricing while the trigger is the one that the first step set, with the
  -- price that it leaves to the case.
  pub soft_close-NoGain :
      (s s' q q' : SoftClose F) (t t' u u' : TradeInstance F)
      → lesser_side t ≡ some side
      → soft_init gw wake s t ≡ some (q, u)
      → t'.trigger_state ≡ trigger_of side
      → soft_reprice gw wake side s' t' ≡ some (q', u')
      → NoGain side q.send_price t u × NoGain side q'.send_price t' u'
  soft_close-NoGain s s' q q' t t' u u' h e trigger f = (
    soft_from-NoGain gw wake side s q t u (rw h at e),
    soft_reprice-NoGain gw wake side s' q' t' u' trigger f,
  )

module _ {F : Type 0} ⦃d : Double F⦄ (gw : Gateway F) (wake : TradeAccount F → TradeAccount F)
    (c q : TradeCase10 F) (side : Side) (t u : TradeInstance F) where
  -- A case 10 whose first step sends its order has, in the account that it chose, as many lots more
  -- that close in the market as are in `base_qty` shares, or in all its shares if these are fewer; it
  -- notes the position, and the account opposite to that one is as before. The account is consistent, its
  -- generator of numbers does not wrap, and the messages of the wait end no order.
  pub case10_init-closes :
      IsQuiet wake
      → IsConsistent (account_of side t).account
      → (account_of side t).account.request_id_generator + 1 < 2 ^ 32
      → choose_account c t ≡ some side
      → case10_init gw wake c t ≡ some (q, u)
      → q.base.state ≡ state_price_change
      → MoreClose side (q.close_size / (account_of side t).divisor) t u
        × KeepsOpposite side t u
        × (q.original_size ≡ to_u32 (get_position (account_of side t)))
        × (q.close_size ≡ min t.base_qty q.original_size)
  unfolding case10_send
  case10_init-closes quiet v room chosen e going =
      let account = account_of side t in
      let size = min t.base_qty (to_u32 (get_position account)) in
      let price = case10_price side t in
      let sent : case10_send gw wake (some side) c t ≡ some (q, u) = rw chosen at e in
      elim (Option-cases (close_position gw wake price size false account)) [
        | inl lost ↦ ground arith
        | inr ((a, id), found) ↦ elim (Bool-cases (id == 0)) [
          | inl failed ↦ ground (arith, found)
          | inr numbered ↦
              let live = close_position-ClosesLive gw wake quiet account v room price size a id in
              let (opened, closed, _, _) = (live (ground arith)).0 false found in
              ground (arith, opened, closed)
        ]
      ]

  -- The fault. Case 10 is to end when only the current account holds shares, but its first step goes
  -- on then: if the account that it would close is empty, it asks for an order of 0 shares, and the
  -- case waits for it or has failed.
  pub case10_init-goes_on :
      is_opposite_closed c.base t ≡ true
      → c.account_to_close ≡ some side
      → get_position (account_of side t) ≡ pos 0
      → case10_init gw wake c t ≡ some (q, u)
      → (q.close_size ≡ 0) × ((q.base.state ≡ state_price_change) ⊎ (q.base.state ≡ state_failed))
  unfolding case10_send to_u32
  case10_init-goes_on closed chosen empty e =
      let sent : case10_send gw wake (some side) c t ≡ some (q, u) =
        ground (arith, closed, chosen) in
      let account = account_of side t in
      let size = min t.base_qty (to_u32 (get_position account)) in
      let price = case10_price side t in
      elim (Option-cases (close_position gw wake price size false account)) [
        | inl lost ↦ ground arith
        | inr ((a, id), found) ↦ elim (Bool-cases (id == 0)) [
          | inl failed ↦ ground (arith, found, empty)
          | inr numbered ↦ ground (arith, found, empty)
        ]
      ]
