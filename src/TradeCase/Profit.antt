-- ===== src/TradeCase/Profit.antt =====
-- The cases that close the shares in profit: `TradeCase9` in the current account, and
-- `CloseOppositeWithPNL` in the opposite one. `TradeCase7` moves the open profit of the current
-- account into the prices of the opposite one.
use tradingapp.Prelude.{ℕ, false, ◌||◌, Option, some, ◌==◌, if◌then◌else◌}
use tradingapp.Prelude.Int.{pos, ◌-ℤ◌, eqb_ℤ, to_u32}
use tradingapp.Double.{Double, zero_point}
use tradingapp.OrderAccount.{Gateway}
use tradingapp.TradeAccount.State.{
  TradeAccount, sizeof_close_order_with_pnl, get_open_pnl, repackage_position_table,
}
use tradingapp.TradeAccount.Requests.{close_position}
use tradingapp.TradeAccount.Changes.{change, cancel}
use tradingapp.TradeInstance.State.{
  state_price_change, state_wait, state_failed, state_done, TradeInstance, account_of, opposite_of,
}
use tradingapp.TradeInstance.Prices.{close_price}
use tradingapp.TradeCase.{
  CaseBase, enters, set_opposite, on_current, on_opposite, curr_pos, oppo_pos,
}

pub record TradeCase9 (F : Type 0) : Type 0 where
  pub base : CaseBase F
  pub close_size : ℕ

pub record CloseOppositeWithPnl (F : Type 0) : Type 0 where
  pub base : CaseBase F
  pub close_size : ℕ
  pub init_size : ℕ
  pub close_price : F
  pub close_id : ℕ

module _ {F : Type 0} where
  unfoldable pub case9_wait : TradeCase9 F → TradeInstance F → TradeCase9 F
  case9_wait c t =
      if eqb_ℤ (pos 0) (curr_pos c.base.side t)
      then record c { base = enters state_done c.base }
      else c

module _ {F : Type 0} ⦃d : Double F⦄ (gw : Gateway F) (wake : TradeAccount F → TradeAccount F) where
  open d use {le, eq}

  -- The order for the shares in profit at a price that is positive.
  unfoldable pub case9_close :
      F → ℕ → TradeCase9 F → TradeInstance F → Option (TradeCase9 F × TradeInstance F)
  case9_close price size c t =
      let side = c.base.side in
      let sized = record c { close_size = size } in
      if size == 0
      then some (record sized { base = enters state_failed c.base }, t)
      else on_current side t (close_position gw wake price size false (account_of side t)) (λ id u.
        some (
          record sized {
            base = record c.base {
              main_order_id = id;
              state = if id == 0 then state_failed else state_price_change;
            };
          },
          u,
        ))

  unfoldable pub case9_init :
      TradeCase9 F → TradeInstance F → Option (TradeCase9 F × TradeInstance F)
  case9_init c t =
      let side = c.base.side in
      let price = close_price (to_u32 (curr_pos side t)) zero_point t in
      let priced = record c { base = record c.base { send_price = price } } in
      if le price zero_point
      then some (record priced { base = enters state_failed priced.base }, t)
      else case9_close price (sizeof_close_order_with_pnl price (account_of side t)).0 priced t

  unfoldable pub case9_reprice :
      TradeCase9 F → TradeInstance F → Option (TradeCase9 F × TradeInstance F)
  case9_reprice c t =
      let side = c.base.side in
      let new_price = close_price (to_u32 (curr_pos side t)) zero_point t in
      let new_size = (sizeof_close_order_with_pnl new_price (account_of side t)).0 in
      if eqb_ℤ (pos 0) (curr_pos side t)
      then some (record c { base = enters state_done c.base }, t)
      else if le new_price zero_point || eq new_price c.base.send_price
      then some (c, t)
      else if new_size == 0
      then some (c, t)
      else on_current side t
          (change gw wake c.base.main_order_id new_price new_size (account_of side t))
          (λ new_order u. some (
            if new_order == 0 || new_order == c.base.main_order_id
                then record c { base = enters state_wait c.base }
                else record {
                  base = record c.base { main_order_id = new_order; send_price = new_price };
                  close_size = new_size;
                },
            u,
          ))

  -- The order's number goes to `close_id`, and `main_order_id` stays 0.
  unfoldable pub close_opposite_init :
      CloseOppositeWithPnl F → TradeInstance F → Option (CloseOppositeWithPnl F × TradeInstance F)
  close_opposite_init start t =
      let side = start.base.side in
      let price = t.trade_price in
      let size = (sizeof_close_order_with_pnl price (opposite_of side t)).0 in
      let c = record start { close_price = price; close_size = size } in
      if le price zero_point
      then some (record start { base = enters state_failed start.base; close_price = price }, t)
      else if size == 0
      then some (record c { base = enters state_failed c.base }, t)
      else on_opposite side t (close_position gw wake price size false (opposite_of side t))
          (λ id u. some (
            record c {
              base = enters (if id == 0 then state_failed else state_price_change) c.base;
              close_id = id;
            },
            u,
          ))

  -- With a new price: the order is changed, or cancelled if no share is in profit.
  unfoldable pub close_opposite_change :
      F
      → ℕ
      → CloseOppositeWithPnl F
      → TradeInstance F
      → Option (CloseOppositeWithPnl F × TradeInstance F)
  close_opposite_change new_price new_size c t =
      let side = c.base.side in
      if new_size == 0
      then on_opposite side t (cancel gw wake c.base.main_order_id (opposite_of side t))
          (λ _ u. some (record c { base = enters state_done c.base }, u))
      else on_opposite side t
          (change gw wake c.base.main_order_id new_price new_size (opposite_of side t))
          (λ new_order u. some (
            if new_order == 0 || new_order == c.base.main_order_id
                then record c { base = enters state_done c.base }
                else record c {
                  base = record c.base { main_order_id = new_order; send_price = new_price };
                  close_size = new_size;
                },
            u,
          ))

  unfoldable pub close_opposite_reprice :
      CloseOppositeWithPnl F → TradeInstance F → Option (CloseOppositeWithPnl F × TradeInstance F)
  close_opposite_reprice start t =
      let is_closed =
        eqb_ℤ (pos start.init_size -ℤ oppo_pos start.base.side t) (pos start.close_size) in
      let c = if is_closed then record start { base = enters state_done start.base } else start in
      let new_size =
        (sizeof_close_order_with_pnl t.trade_price (opposite_of start.base.side t)).0 in
      if eq t.trade_price c.base.send_price
      then some (c, t)
      else close_opposite_change t.trade_price new_size c t

module _ {F : Type 0} where
  unfoldable pub close_opposite_done :
      CloseOppositeWithPnl F → TradeInstance F → CloseOppositeWithPnl F
  close_opposite_done c t =
      if eqb_ℤ (pos c.init_size) (oppo_pos c.base.side t)
      then record c { base = enters state_failed c.base }
      else c

module _ {F : Type 0} ⦃d : Double F⦄ where
  open d use {of_int, div}

  unfoldable pub case7_init : CaseBase F → TradeInstance F → CaseBase F × TradeInstance F
  case7_init c t =
      let pnl = get_open_pnl t.reference_price (account_of c.side t) in
      let adjustment = div pnl (of_int (oppo_pos c.side t)) in
      let opposite = opposite_of c.side t in
      (
        enters state_done c,
        set_opposite c.side (repackage_position_table t.base_qty t.mpv_value adjustment opposite) t,
      )
