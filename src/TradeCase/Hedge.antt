-- ===== src/TradeCase/Hedge.antt =====
-- The cases that open what one account holds less than the other: `HedgeCurrent`, and `HedgedMode`.
use tradingapp.Prelude.{ℕ, false, ◌&&◌, ◌||◌, Option, none, some, ltb, ◌==◌, if◌then◌else◌}
use tradingapp.Prelude.Int.{◌-ℤ◌, to_u32}
use tradingapp.Double.{Double, zero_point}
use tradingapp.OrderAccount.{Gateway}
use tradingapp.TradeAccount.State.{
  TradeAccount, hedged_mode_condition, inc_tranch, repackage_position_table,
}
use tradingapp.TradeAccount.Requests.{open_position}
use tradingapp.TradeAccount.Changes.{change}
use tradingapp.TradeInstance.State.{
  is_done, CaseState, state_price_change, state_wait, state_failed, state_done, Side, long_side,
  short_side, TradeInstance, account_of, opposite_of, send_price,
}
use tradingapp.TradeInstance.Prices.{open_price}
use tradingapp.TradeCase.{
  CaseBase, enters, set_current, set_opposite, on_current, curr_pos, oppo_pos, is_level,
}

pub record HedgeCurrent (F : Type 0) : Type 0 where
  pub base : CaseBase F
  pub ho_size : ℕ

pub record HedgedMode (F : Type 0) : Type 0 where
  pub state : CaseState
  pub ho_size : ℕ
  pub price : F
  pub order_id : ℕ
  -- The side of `selected_account`; `other_account` is the opposite one.
  pub selected : Option Side

module _ {F : Type 0} where
  -- What the current account holds less, as a `uint32_t`.
  abbrev pub lack : Side → TradeInstance F → ℕ
  lack side t = to_u32 (oppo_pos side t -ℤ curr_pos side t)

  unfoldable pub hedge_wait : HedgeCurrent F → TradeInstance F → HedgeCurrent F
  hedge_wait c t =
      if is_level c.base.side t then record c { base = enters state_done c.base } else c

module _ {F : Type 0} ⦃d : Double F⦄ (gw : Gateway F) (wake : TradeAccount F → TradeAccount F) where
  open d use {lt, eq}

  -- The case goes on whether or not the order was sent.
  unfoldable pub hedge_init :
      HedgeCurrent F → TradeInstance F → Option (HedgeCurrent F × TradeInstance F)
  hedge_init c t =
      let side = c.base.side in
      let size = lack side t in
      let price = send_price size t in
      let base = record c.base { send_price = price } in
      if ltb 0 size && lt zero_point price
      then on_current side t (open_position gw wake price size false (account_of side t)) (λ id u.
        some (
          record {
            base = record base { main_order_id = id; state = state_price_change };
            ho_size = size;
          },
          u,
        ))
      else some (record { base = enters state_failed base; ho_size = size }, t)

  -- Equal positions end the case, but its order is repriced nevertheless.
  unfoldable pub hedge_reprice :
      HedgeCurrent F → TradeInstance F → Option (HedgeCurrent F × TradeInstance F)
  unfolding hedge_wait
  hedge_reprice start t =
      let c = hedge_wait start t in
      let side = c.base.side in
      let new_price = open_price c.ho_size c.base.send_price t in
      if eq new_price c.base.send_price
      then some (c, t)
      else on_current side t (change gw wake c.base.main_order_id new_price 0 (account_of side t))
          (λ new_order u. some (
            if new_order == 0 || new_order == c.base.main_order_id
                then record c { base = enters state_wait c.base }
                else record c {
                  base = record c.base { main_order_id = new_order; send_price = new_price };
                },
            u,
          ))

module _ {F : Type 0} ⦃d : Double F⦄ where
  -- The destructor.
  unfoldable pub hedge_end : HedgeCurrent F → TradeInstance F → TradeInstance F
  hedge_end c t =
      let side = c.base.side in
      if is_level side t
      then set_current side
          (repackage_position_table t.base_qty t.mpv_value zero_point (account_of side t)) t
      else t

module _ {F : Type 0} ⦃d : Double F⦄ (gw : Gateway F) (wake : TradeAccount F → TradeAccount F) where
  open d use {eq}

  -- Opening in an account what it holds less.
  abbrev pub start_hedged :
      Side → HedgedMode F → TradeInstance F → Option (HedgedMode F × TradeInstance F)
  start_hedged side c t =
      let size = lack side t in
      let price = send_price size t in
      on_current side t (open_position gw wake price size false (account_of side t)) (λ id u. some (
        record {
          state = state_price_change;
          ho_size = size;
          price = price;
          order_id = id;
          selected = some side;
        },
        u,
      ))

  unfoldable pub hedged_init :
      HedgedMode F → TradeInstance F → Option (HedgedMode F × TradeInstance F)
  hedged_init c t =
      if hedged_mode_condition t.bid_price t.ask_price t.short_acc
      then start_hedged long_side c t
      else if hedged_mode_condition t.bid_price t.ask_price t.long_acc
      then start_hedged short_side c t
      else some (record c { state = state_price_change }, t)

  -- Repricing the order of the selected account; none if there is none.
  unfoldable pub change_hedged :
      Option Side → F → HedgedMode F → TradeInstance F → Option (HedgedMode F × TradeInstance F)
  change_hedged none new_price c t = none
  change_hedged (some side) new_price c t =
      on_current side t (change gw wake c.order_id new_price 0 (account_of side t)) (λ new_id u.
        some (
          if new_id == c.order_id || new_id == 0
              then record c { state = state_wait }
              else record c { price = new_price; order_id = new_id },
          u,
        ))

  unfoldable pub hedged_reprice :
      HedgedMode F → TradeInstance F → Option (HedgedMode F × TradeInstance F)
  hedged_reprice c t =
      let new_price = send_price c.ho_size t in
      if is_level short_side t
      then some (record c { state = state_done }, t)
      else if eq c.price new_price
      then some (c, t)
      else change_hedged c.selected new_price c t

module _ {F : Type 0} where
  unfoldable pub hedged_wait : HedgedMode F → TradeInstance F → HedgedMode F
  hedged_wait c t = if is_level short_side t then record c { state = state_done } else c

  abbrev pub count_tranch : Option Side → TradeInstance F → Option (TradeInstance F)
  count_tranch none t = none
  count_tranch (some side) t = some (set_opposite side (inc_tranch (opposite_of side t)) t)

  -- The destructor.
  unfoldable pub hedged_end : HedgedMode F → TradeInstance F → Option (TradeInstance F)
  hedged_end c t =
      if is_done c.state && is_level short_side t then count_tranch c.selected t else some t
