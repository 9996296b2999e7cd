-- ===== src/TradeCase/MaxTlv.antt =====
-- `MaxTLV`: the case that closes the maximum position in both accounts.
use tradingapp.Prelude.{
  ℕ, ◌+◌, ◌-◌, ◌%◌, ◌^◌, Bool, false, ◌&&◌, ◌||◌, Option, none, some, ◌==◌, if◌then◌else◌,
}
use tradingapp.Prelude.Int.{ℤ, to_u64}
use tradingapp.Double.{Double, zero_point}
use tradingapp.OrderAccount.{Gateway}
use tradingapp.TradeAccount.State.{TradeAccount}
use tradingapp.TradeAccount.Requests.{close_position}
use tradingapp.TradeAccount.Changes.{change}
use tradingapp.TradeInstance.State.{
  state_price_change, state_done, TradeInstance, account_of, opposite_of,
}
use tradingapp.TradeInstance.Prices.{open_price, close_price}
use tradingapp.TradeCase.{CaseBase, enters, on_current, on_opposite, curr_pos, oppo_pos}

pub record MaxTlv (F : Type 0) : Type 0 where
  pub base : CaseBase F
  pub curr_price : F
  pub oppo_price : F
  pub curr_id : ℕ
  pub oppo_id : ℕ
  pub curr_size_init : ℕ
  pub oppo_size_init : ℕ

module _ {F : Type 0} where
  -- The quantity of the orders, a `size_t` that is passed as a `uint32_t`.
  abbrev pub tlv_size : TradeInstance F → ℕ
  tlv_size t = t.max_pos % 2 ^ 32

  -- Whether a position is the first one less the maximum, as a `size_t`.
  abbrev pub is_reduced : ℕ → ℤ → TradeInstance F → Bool
  is_reduced size_init position t = to_u64 position == ((size_init + 2 ^ 64 - t.max_pos) % 2 ^ 64)

module _ {F : Type 0} ⦃d : Double F⦄ (gw : Gateway F) (wake : TradeAccount F → TradeAccount F) where
  open d use {eq}

  abbrev pub tlv_close_opposite : MaxTlv F → TradeInstance F → Option (MaxTlv F × TradeInstance F)
  tlv_close_opposite c t =
      let side = c.base.side in
      on_opposite side t
        (close_position gw wake c.base.send_price (tlv_size t) false (opposite_of side t))
        (λ id u. some (record c { base = enters state_price_change c.base; oppo_id = id }, u))

  -- Both orders are sent at `send_price`, which nothing has set.
  unfoldable pub tlv_init : MaxTlv F → TradeInstance F → Option (MaxTlv F × TradeInstance F)
  tlv_init start t =
      let side = start.base.side in
      let c = record start {
        curr_price = close_price (tlv_size t) zero_point t;
        oppo_price = open_price (tlv_size t) zero_point t;
      } in
      on_current side t
        (close_position gw wake c.base.send_price (tlv_size t) false (account_of side t))
        (λ id u. tlv_close_opposite (record c { curr_id = id }) u)

  unfoldable pub tlv_change_current :
      MaxTlv F → TradeInstance F → Option (MaxTlv F × TradeInstance F)
  tlv_change_current c t =
      let side = c.base.side in
      let new_price = close_price (tlv_size t) c.curr_price t in
      if is_reduced c.curr_size_init (curr_pos side t) t || eq new_price c.curr_price
      then some (c, t)
      else on_current side t (change gw wake c.curr_id new_price 0 (account_of side t)) (λ id u.
        some (
          if id == 0 || id == c.curr_id
              then record c { curr_id = 0 }
              else record c { curr_id = id; curr_price = new_price },
          u,
        ))

  unfoldable pub tlv_change_opposite :
      MaxTlv F → TradeInstance F → Option (MaxTlv F × TradeInstance F)
  tlv_change_opposite c t =
      let side = c.base.side in
      let new_price = open_price (tlv_size t) c.oppo_price t in
      if is_reduced c.oppo_size_init (oppo_pos side t) t || eq new_price c.oppo_price
      then some (c, t)
      else on_opposite side t (change gw wake c.oppo_id new_price 0 (opposite_of side t)) (λ id u.
        some (
          if id == 0 || id == c.oppo_id
              then record c { oppo_id = 0 }
              else record c { oppo_id = id; oppo_price = new_price },
          u,
        ))

  unfoldable pub tlv_reprice : MaxTlv F → TradeInstance F → Option (MaxTlv F × TradeInstance F)
  unfolding tlv_change_current tlv_change_opposite
  tlv_reprice c t =
      let side = c.base.side in
      if is_reduced c.curr_size_init (curr_pos side t) t
        && is_reduced c.oppo_size_init (oppo_pos side t) t
      then some (record c { base = enters state_done c.base }, t)
      else elim (tlv_change_current c t) [ none ↦ none | some (e, u) ↦ tlv_change_opposite e u ]
