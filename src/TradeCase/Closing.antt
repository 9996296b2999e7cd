-- ===== src/TradeCase/Closing.antt =====
-- The cases that close a whole position, a part of it, or what exceeds the maximum: `TradeCase1`,
-- `TradeCase3` and `TradeCase5`. A comparison of a position with a `size_t` is of unsigned numbers.
use tradingapp.Prelude.{
  ℕ, ◌+◌, ◌-◌, ◌%◌, ◌^◌, Bool, true, false, not, ◌&&◌, ◌||◌, Option, none, some, ltb, leb, ◌==◌,
  if◌then◌else◌,
}
use tradingapp.Prelude.Int.{pos, ◌-ℤ◌, to_u32, to_u64}
use tradingapp.Double.{Double, zero_point}
use tradingapp.OrderAccount.{Gateway}
use tradingapp.TradeAccount.State.{TradeAccount, check_pnl}
use tradingapp.TradeAccount.Requests.{close_position}
use tradingapp.TradeAccount.Changes.{change}
use tradingapp.TradeInstance.State.{
  TriggerState, trigger_init, trigger_positive, trigger_negative, state_price_change, state_done,
  TradeInstance, account_of, opposite_of, send_price,
}
use tradingapp.TradeCase.{CaseBase, enters, on_current, on_opposite, curr_pos, oppo_pos}

pub record TradeCase1 (F : Type 0) : Type 0 where
  pub base : CaseBase F
  pub close_size : ℕ
  pub prev_send_price : F

pub record TradeCase3 (F : Type 0) : Type 0 where
  pub base : CaseBase F
  pub close_size : ℕ

pub record TradeCase5 (F : Type 0) : Type 0 where
  pub base : CaseBase F
  pub curr_close_size : ℕ
  pub oppo_close_size : ℕ
  pub curr_send_price : F
  pub oppo_send_price : F
  pub curr_order : ℕ
  pub oppo_order : ℕ

module _ {F : Type 0} ⦃d : Double F⦄ where
  open d use {le}

  -- `checkFails`, whose answer true is that nothing fails.
  unfoldable pub check_fails : TradeCase1 F → TradeInstance F → TradeCase1 F × Bool
  check_fails start t =
      let size = to_u32 (oppo_pos start.base.side t) in
      let price = send_price size t in
      let c = record start {
        base = record start.base { send_price = price };
        close_size = size;
        prev_send_price = start.base.send_price;
      } in
      if size == 0
      then (record start { base = enters state_done start.base; close_size = size }, false)
      else if le price zero_point || not (check_pnl price (opposite_of c.base.side t))
      then (record c { base = enters state_done c.base }, false)
      else (c, true)

module _ {F : Type 0} ⦃d : Double F⦄ (gw : Gateway F) (wake : TradeAccount F → TradeAccount F) where
  open d use {eq}

  unfoldable pub case1_init :
      TradeCase1 F → TradeInstance F → Option (TradeCase1 F × TradeInstance F)
  unfolding check_fails
  case1_init start t =
      let (c, passes) = check_fails start t in
      let side = c.base.side in
      if not passes
      then some (c, t)
      else on_opposite side t
          (close_position gw wake c.base.send_price c.close_size false (opposite_of side t))
          (λ id u. some (
            record c {
              base = record c.base {
                main_order_id = id;
                state = if id == 0 then state_done else state_price_change;
              };
            },
            u,
          ))

  unfoldable pub case1_reprice :
      TradeCase1 F → TradeInstance F → Option (TradeCase1 F × TradeInstance F)
  unfolding check_fails
  case1_reprice start t =
      let (c, passes) = check_fails start t in
      let side = c.base.side in
      if not passes || eq c.base.send_price c.prev_send_price
      then some (c, t)
      else on_opposite side t
          (change gw wake c.base.main_order_id c.base.send_price 0 (opposite_of side t))
          (λ new_id u. some (
            if new_id == c.base.main_order_id || new_id == 0
                then record c { base = enters state_done c.base }
                else record c { base = record c.base { main_order_id = new_id } },
            u,
          ))

  unfoldable pub case3_init :
      TradeCase3 F → TradeInstance F → Option (TradeCase3 F × TradeInstance F)
  case3_init c t =
      let side = c.base.side in
      let size = t.base_qty in
      let price = send_price size t in
      on_current side t (close_position gw wake price size false (account_of side t)) (λ id u.
        some (
          record {
            base = record c.base {
              send_price = price;
              main_order_id = id;
              state = if id == 0 then state_done else state_price_change;
            };
            close_size = size;
          },
          u,
        ))

  -- The order was sent by the current account, but is changed in the opposite one.
  unfoldable pub case3_reprice :
      TradeCase3 F → TradeInstance F → Option (TradeCase3 F × TradeInstance F)
  case3_reprice start t =
      let side = start.base.side in
      let target = (t.max_pos + 2 ^ 64 - start.close_size) % 2 ^ 64 in
      let c =
        if leb (to_u64 (curr_pos side t)) target
        then record start { base = enters state_done start.base }
        else start in
      let new_price = send_price c.close_size t in
      if eq new_price c.base.send_price
      then some (c, t)
      else on_opposite side t (change gw wake c.base.main_order_id new_price 0 (opposite_of side t))
          (λ new_id u. some (
            if new_id == c.base.main_order_id || new_id == 0
                then record c { base = enters state_done c.base }
                else record c { base = record c.base { main_order_id = new_id } },
            u,
          ))

module _ {F : Type 0} where
  abbrev pub current_price : TriggerState → TradeInstance F → F
  current_price trigger_positive t = t.ask_price
  current_price trigger_negative t = t.bid_price
  current_price trigger_init t = t.bid_price

  abbrev pub opposite_price : TriggerState → TradeInstance F → F
  opposite_price trigger_positive t = t.bid_price
  opposite_price trigger_negative t = t.ask_price
  opposite_price trigger_init t = t.ask_price

module _ {F : Type 0} ⦃d : Double F⦄ (gw : Gateway F) (wake : TradeAccount F → TradeAccount F) where
  open d use {eq}

  unfoldable pub case5_close_current :
      TradeCase5 F → TradeInstance F → Option (TradeCase5 F × TradeInstance F)
  case5_close_current c t =
      let side = c.base.side in
      let size = to_u32 (curr_pos side t -ℤ pos t.max_pos) in
      let price = current_price t.trigger_state t in
      if ltb t.max_pos (to_u64 (curr_pos side t))
      then on_current side t (close_position gw wake price size false (account_of side t)) (λ id u.
        some (record c { curr_close_size = size; curr_send_price = price; curr_order = id }, u))
      else some (c, t)

  unfoldable pub case5_close_opposite :
      TradeCase5 F → TradeInstance F → Option (TradeCase5 F × TradeInstance F)
  case5_close_opposite c t =
      let side = c.base.side in
      let size = to_u32 (oppo_pos side t -ℤ pos t.max_pos) in
      let price = opposite_price t.trigger_state t in
      if ltb t.max_pos (to_u64 (oppo_pos side t))
      then on_opposite side t (close_position gw wake price size false (opposite_of side t))
          (λ id u.
            some (record c { oppo_close_size = size; oppo_send_price = price; oppo_order = id }, u))
      else some (c, t)

  unfoldable pub case5_init :
      TradeCase5 F → TradeInstance F → Option (TradeCase5 F × TradeInstance F)
  unfolding case5_close_current case5_close_opposite
  case5_init start t = elim (case5_close_current start t) [
    | none ↦ none
    | some (c, u) ↦ elim (case5_close_opposite c u) [
      | none ↦ none
      | some (e, v) ↦ some (record e { base = enters state_price_change e.base }, v)
    ]
  ]

  -- A change that succeeds leaves the old number and the old price in the case.
  unfoldable pub case5_change_current :
      TradeCase5 F → TradeInstance F → Option (TradeCase5 F × TradeInstance F)
  case5_change_current c t =
      let side = c.base.side in
      let new_price = current_price t.trigger_state t in
      if not (eq c.curr_send_price new_price) && not (c.curr_order == 0)
      then on_current side t (change gw wake c.curr_order new_price 0 (account_of side t)) (λ id u.
        some (if id == 0 || id == c.curr_order then record c { curr_order = 0 } else c, u))
      else some (c, t)

  unfoldable pub case5_change_opposite :
      TradeCase5 F → TradeInstance F → Option (TradeCase5 F × TradeInstance F)
  case5_change_opposite c t =
      let side = c.base.side in
      let new_price = opposite_price t.trigger_state t in
      if not (eq c.oppo_send_price new_price) && not (c.oppo_order == 0)
      then on_opposite side t (change gw wake c.oppo_order new_price 0 (opposite_of side t))
          (λ id u.
            some (if id == 0 || id == c.oppo_order then record c { oppo_order = 0 } else c, u))
      else some (c, t)

  unfoldable pub case5_reprice :
      TradeCase5 F → TradeInstance F → Option (TradeCase5 F × TradeInstance F)
  unfolding case5_change_current case5_change_opposite
  case5_reprice c t =
      let side = c.base.side in
      if leb (to_u64 (oppo_pos side t)) t.max_pos && leb (to_u64 (curr_pos side t)) t.max_pos
      then some (record c { base = enters state_done c.base }, t)
      else elim (case5_change_current c t) [ none ↦ none | some (e, u) ↦ case5_change_opposite e u ]
