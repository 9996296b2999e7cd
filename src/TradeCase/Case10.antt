-- ===== src/TradeCase/Case10.antt =====
-- `TradeCase10`: both accounts hold the same, and the opposite one is closed in orders of `base_qty`
-- shares; as soon as the current account holds more, that one is.
use tradingapp.Prelude.{ℕ, Bool, false, ◌&&◌, ◌||◌, Option, none, some, ◌==◌, min, if◌then◌else◌}
use tradingapp.Prelude.Int.{pos, ltb_ℤ, leb_ℤ, eqb_ℤ, to_u32}
use tradingapp.Prelude.Word.{sub32}
use tradingapp.Double.{Double}
use tradingapp.OrderAccount.{Gateway}
use tradingapp.TradeAccount.State.{TradeAccount, get_position, truncate}
use tradingapp.TradeAccount.Requests.{close_position}
use tradingapp.TradeAccount.Changes.{change}
use tradingapp.TradeInstance.State.{
  state_price_change, state_wait, state_failed, state_done, Side, long_side, short_side,
  TradeInstance, account_of,
}
use tradingapp.TradeCase.{CaseBase, enters, on_current, curr_pos, oppo_pos, estimation_error}

-- `trigger_state` and `orders` are left out, as nothing reads them.
pub record TradeCase10 (F : Type 0) : Type 0 where
  pub base : CaseBase F
  pub close_size : ℕ
  pub original_size : ℕ
  pub error : F
  -- The side of the account, if the pointer is not null.
  pub account_to_close : Option Side

module _ {F : Type 0} where
  -- Only the current account holds shares.
  abbrev pub is_opposite_closed : CaseBase F → TradeInstance F → Bool
  is_opposite_closed c t = ltb_ℤ (pos 0) (curr_pos c.side t) && eqb_ℤ (oppo_pos c.side t) (pos 0)

  -- The account to close: the instance's current one if the case's current one holds more.
  abbrev pub choose_account : TradeCase10 F → TradeInstance F → Option Side
  choose_account c t =
      if is_opposite_closed c.base t
      then c.account_to_close
      else if ltb_ℤ (oppo_pos c.base.side t) (curr_pos c.base.side t)
      then t.current
      else c.account_to_close

module _ {F : Type 0} ⦃d : Double F⦄ where
  open d use {add, sub}

  -- The price at which an account is closed.
  abbrev pub case10_price : Side → TradeInstance F → F
  case10_price long_side t = truncate (add t.bar0.open_price (estimation_error t))
  case10_price short_side t = truncate (sub t.bar0.open_price (estimation_error t))

module _ {F : Type 0} ⦃d : Double F⦄ (gw : Gateway F) (wake : TradeAccount F → TradeAccount F) where
  open d use {eq}

  -- From the choice of the account on. The state `DONE` of a position that is closed, or of no
  -- shares to close, is overwritten.
  unfoldable pub case10_send :
      Option Side → TradeCase10 F → TradeInstance F → Option (TradeCase10 F × TradeInstance F)
  case10_send none c t = none
  case10_send (some side) c t =
      let original_size = to_u32 (get_position (account_of side t)) in
      let close_size = min t.base_qty original_size in
      let price = case10_price side t in
      on_current side t (close_position gw wake price close_size false (account_of side t)) (λ id u.
        some (
          record {
            base = record c.base {
              send_price = price;
              main_order_id = id;
              state = if id == 0 then state_failed else state_price_change;
            };
            close_size = close_size;
            original_size = original_size;
            error = estimation_error t;
            account_to_close = some side;
          },
          u,
        ))

  abbrev pub case10_init :
      TradeCase10 F → TradeInstance F → Option (TradeCase10 F × TradeInstance F)
  case10_init c t = case10_send (choose_account c t) c t

  unfoldable pub case10_change :
      Option Side → TradeCase10 F → TradeInstance F → Option (TradeCase10 F × TradeInstance F)
  case10_change none c t = none
  case10_change (some side) start t =
      let c = record start { error = estimation_error t } in
      let new_price = case10_price side t in
      if eq new_price c.base.send_price
      then some (c, t)
      else on_current side t (change gw wake c.base.main_order_id new_price 0 (account_of side t))
          (λ new_id u. some (
            if new_id == c.base.main_order_id || new_id == 0
                then record c { base = enters state_wait c.base }
                else record c {
                  base = record c.base { send_price = new_price; main_order_id = new_id };
                },
            u,
          ))

  abbrev pub case10_reprice :
      TradeCase10 F → TradeInstance F → Option (TradeCase10 F × TradeInstance F)
  case10_reprice c t = case10_change c.account_to_close c t

  -- The next order is sent when the last one is filled.
  unfoldable pub case10_next :
      Option Side → TradeCase10 F → TradeInstance F → Option (TradeCase10 F × TradeInstance F)
  case10_next none c t = none
  case10_next (some side) c t =
      if leb_ℤ (get_position (account_of side t)) (pos (sub32 c.original_size c.close_size))
      then case10_init c t
      else some (c, t)

  unfoldable pub case10_wait :
      TradeCase10 F → TradeInstance F → Option (TradeCase10 F × TradeInstance F)
  case10_wait c t =
      if is_opposite_closed c.base t
      then some (record c { base = enters state_done c.base }, t)
      else case10_next c.account_to_close c t
