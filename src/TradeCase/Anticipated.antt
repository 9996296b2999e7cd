-- ===== src/TradeCase/Anticipated.antt =====
-- `CloseOppositeWithAnticipatedPNL`: the excess of the opposite account is closed if its profit brings
-- the average of the current account to the right side of the trade price.
use tradingapp.Prelude.{ℕ, Bool, false, not, ◌&&◌, ◌||◌, Option, some, ◌==◌, if◌then◌else◌}
use tradingapp.Prelude.Int.{pos, ◌-ℤ◌, eqb_ℤ, ltb_ℤ}
use tradingapp.Double.{Double, zero_point}
use tradingapp.OrderAccount.{Gateway}
use tradingapp.TradeAccount.State.{
  TradeAccount, get_average, sizeof_close_order_with_pnl, repackage_position_table, reset_pnl,
}
use tradingapp.TradeAccount.Requests.{close_position}
use tradingapp.TradeAccount.Changes.{change, cancel}
use tradingapp.TradeInstance.State.{
  trigger_init, trigger_positive, trigger_negative, state_price_change, state_wait, state_failed,
  state_done, TradeInstance, account_of, opposite_of,
}
use tradingapp.TradeInstance.Prices.{open_price}
use tradingapp.TradeInstance.PanicClose.{excess}
use tradingapp.TradeCase.{
  CaseBase, enters, set_current, set_opposite, on_opposite, curr_pos, oppo_pos,
}

pub record CloseOppositeWithAnticipatedPnl (F : Type 0) : Type 0 where
  pub base : CaseBase F
  pub close_size : ℕ
  pub close_price : F
  pub order_id : ℕ

module _ {F : Type 0} ⦃d : Double F⦄ where
  open d use {of_int, sub, mul, div, lt, le}

  -- The average of the current account, moved by the profit.
  abbrev pub anticipated : F → CaseBase F → TradeInstance F → F
  anticipated price c t =
      let pnl = (sizeof_close_order_with_pnl price (opposite_of c.side t)).1 in
      let adjustment = div pnl (of_int (curr_pos c.side t)) in
      sub (get_average (account_of c.side t)) (mul adjustment (of_int c.sign))

  unfoldable pub is_opposite_close_profitable : F → CaseBase F → TradeInstance F → Bool
  is_opposite_close_profitable price c t = elim t.trigger_state [
    | trigger_positive ↦ le (anticipated price c t) t.trade_price
    | trigger_negative ↦ le t.trade_price (anticipated price c t)
    | trigger_init ↦ false
  ]

  -- The destructor.
  unfoldable pub anticipated_end :
      CloseOppositeWithAnticipatedPnl F → TradeInstance F → TradeInstance F
  anticipated_end c t =
      let side = c.base.side in
      let pnl = (opposite_of side t).position_table.pnl in
      let adjustment = div pnl (of_int (curr_pos side t)) in
      let moved = repackage_position_table t.base_qty t.mpv_value adjustment (account_of side t) in
      if lt zero_point pnl && ltb_ℤ (pos 0) (curr_pos side t)
      then set_opposite side (reset_pnl (opposite_of side t)) (set_current side moved t)
      else t

module _ {F : Type 0} where
  unfoldable pub anticipated_wait :
      CloseOppositeWithAnticipatedPnl F → TradeInstance F → CloseOppositeWithAnticipatedPnl F
  anticipated_wait c t =
      if eqb_ℤ (oppo_pos c.base.side t -ℤ curr_pos c.base.side t) (pos 0)
      then record c { base = enters state_done c.base }
      else c

module _ {F : Type 0} ⦃d : Double F⦄ (gw : Gateway F) (wake : TradeAccount F → TradeAccount F) where
  open d use {eq}

  unfoldable pub anticipated_init :
      CloseOppositeWithAnticipatedPnl F
      → TradeInstance F
      → Option (CloseOppositeWithAnticipatedPnl F × TradeInstance F)
  anticipated_init c t =
      let side = c.base.side in
      let size = excess side t in
      let price = open_price size zero_point t in
      if is_opposite_close_profitable price c.base t
      then on_opposite side t (close_position gw wake price size false (opposite_of side t))
          (λ id u. some (
            record {
              base = enters (if id == 0 then state_failed else state_price_change) c.base;
              close_size = size;
              close_price = price;
              order_id = id;
            },
            u,
          ))
      else some (record c { base = enters state_failed c.base; close_size = size }, t)

  unfoldable pub anticipated_reprice :
      CloseOppositeWithAnticipatedPnl F
      → TradeInstance F
      → Option (CloseOppositeWithAnticipatedPnl F × TradeInstance F)
  anticipated_reprice c t =
      let side = c.base.side in
      let size = excess side t in
      let price = open_price size zero_point t in
      let is_profitable = is_opposite_close_profitable price c.base t in
      if eqb_ℤ (oppo_pos side t -ℤ curr_pos side t) (pos 0)
      then some (record c { base = enters state_done c.base }, t)
      else if not (eq price c.close_price) && is_profitable
      then on_opposite side t (change gw wake c.order_id price size (opposite_of side t))
          (λ new_id u. some (
            if new_id == 0 || new_id == c.order_id
                then record c { base = enters state_wait c.base }
                else record c { order_id = new_id; close_price = price; close_size = size },
            u,
          ))
      else if not is_profitable
      then on_opposite side t (cancel gw wake c.order_id (opposite_of side t))
          (λ _ u. some (record c { base = enters state_failed c.base }, u))
      else some (c, t)
