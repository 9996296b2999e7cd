-- ===== src/TradeCase/Opening.antt =====
-- The cases that build a position up: `TradeCase4` by the share rounds, `OnEquality` and `TradeCase6C`
-- by requote orders.
use tradingapp.Prelude.{
  ℕ, ◌+◌, ◌*◌, ◌%◌, ◌^◌, ◌||◌, Option, none, some, List, [], ◌∷◌, leb, ◌==◌, if◌then◌else◌,
}
use tradingapp.Prelude.Int.{pos, negsuc, pos_part, leb_ℤ, to_i32, to_u64}
use tradingapp.Prelude.Word.{add32}
use tradingapp.Double.{Double, zero_point}
use tradingapp.Order.{trade_send_close}
use tradingapp.OrderAccount.{Gateway}
use tradingapp.PositionTable.{starting_price}
use tradingapp.TradeAccount.State.{TradeAccount, get_position}
use tradingapp.TradeAccount.Requests.{open_with_done}
use tradingapp.TradeAccount.Changes.{change}
use tradingapp.TradeInstance.State.{
  TriggerState, trigger_init, trigger_positive, trigger_negative, state_price_change, state_wait,
  state_done, ShareRound, TradeInstance, account_of,
}
use tradingapp.TradeInstance.Prices.{open_price}
use tradingapp.TradeCase.{CaseBase, enters, set_current, on_current, curr_pos}
use tradingapp.TradeCase.RequoteLoop.{requote_loop}
use tradingapp.TradeCase.Requote.{residual_of, step_price, send_requote_orders, base_reprice}

-- `init_pos` of the three cases is left out, as nothing reads it.
pub record TradeCase4 (F : Type 0) : Type 0 where
  pub base : CaseBase F
  pub threshold : F
  pub threshold_limit : F
  pub first_order : ℕ
  pub first_order_size : ℕ
  pub first_order_price : F

pub record OnEquality (F : Type 0) : Type 0 where
  pub base : CaseBase F
  pub target_pos : ℕ

pub record TradeCase6C (F : Type 0) : Type 0 where
  pub base : CaseBase F
  pub tranch_at_init : ℕ

module _ {F : Type 0} ⦃d : Double F⦄ where
  open d use {of_int, add, sub, mul, div, lt}

  -- The literals 0.01, 0.015 and so on are the quotients by 1000, correctly rounded.
  abbrev pub thousandths : ℕ → F
  thousandths n = div (of_int (pos n)) (of_int (pos 1000))

  abbrev pub threshold_of : TradeInstance F → F
  threshold_of t =
      let raw =
        div (div (mul (of_int (pos t.max_pos)) t.mpv_value) (of_int (pos t.base_qty)))
          (of_int (pos 2)) in
      if lt raw (thousandths 10)
      then zero_point
      else if lt (thousandths 25) raw
      then thousandths 30
      else if lt (thousandths 15) raw
      then thousandths 20
      else raw

  abbrev pub limit_of : TriggerState → TradeInstance F → F
  limit_of trigger_positive t = sub t.bid_price (threshold_of t)
  limit_of trigger_negative t = add t.ask_price (threshold_of t)
  limit_of trigger_init t = add t.ask_price (threshold_of t)

  abbrev pub factor_of : TriggerState → TradeInstance F → F
  factor_of trigger_positive t = mul t.mpv_value (of_int (negsuc 0))
  factor_of trigger_negative t = t.mpv_value
  factor_of trigger_init t = t.mpv_value

module _ {F : Type 0} ⦃d : Double F⦄ (gw : Gateway F) (wake : TradeAccount F → TradeAccount F) where
  open d use {of_int, add, mul, eq}

  -- The orders of the later rounds, whose numbers are not kept.
  unfoldable pub open_rounds :
      F → F → ℕ → List ShareRound → TradeAccount F → Option (TradeAccount F)
  open_rounds limit factor counter [] a = some a
  open_rounds limit factor counter (round ∷ rounds) a =
      let price = add limit (mul factor (of_int (pos counter))) in
      let rest = λ (b : TradeAccount F). open_rounds limit factor (counter + 1) rounds b in
      elim (open_with_done gw wake price round.position trade_send_close a) [
        | none ↦ none
        | some (b, _) ↦ rest b
      ]

  abbrev pub after_rounds :
      TradeCase4 F
      → TradeInstance F
      → Option (TradeAccount F)
      → Option (TradeCase4 F × TradeInstance F)
  after_rounds c t none = none
  after_rounds c t (some a) =
      some (record c { base = enters state_price_change c.base }, set_current c.base.side a t)

  -- The first order is priced by the market, the others from the limit on. Without a round the
  -- program reads past the end of the list.
  unfoldable pub case4_from :
      List ShareRound → TradeCase4 F → TradeInstance F → Option (TradeCase4 F × TradeInstance F)
  case4_from [] start t = none
  case4_from (first ∷ rounds) start t =
      let side = start.base.side in
      let limit = limit_of t.trigger_state t in
      let price = open_price first.position zero_point t in
      let c = record start {
        threshold = threshold_of t;
        threshold_limit = limit;
        first_order_size = first.position;
        first_order_price = price;
      } in
      on_current side t
        (open_with_done gw wake price first.position trade_send_close (account_of side t))
        (λ id u.
          after_rounds (record c { first_order = id }) u
            (open_rounds limit (factor_of t.trigger_state t) 0 rounds (account_of side u)))

  abbrev pub case4_init : TradeCase4 F → TradeInstance F → Option (TradeCase4 F × TradeInstance F)
  case4_init c t = case4_from t.share_rounds c t

  -- The number 0 of an order that is executed is overwritten by the answer of `change`.
  unfoldable pub case4_change :
      TradeCase4 F → TradeInstance F → Option (TradeCase4 F × TradeInstance F)
  case4_change c t =
      let side = c.base.side in
      let new_price = open_price c.first_order_size zero_point t in
      if c.first_order == 0 || eq c.first_order_price new_price
      then some (c, t)
      else on_current side t (change gw wake c.first_order new_price 0 (account_of side t))
          (λ new_order u.
            some (record c { first_order_price = new_price; first_order = new_order }, u))

  unfoldable pub case4_reprice :
      TradeCase4 F → TradeInstance F → Option (TradeCase4 F × TradeInstance F)
  case4_reprice c t = elim (base_reprice gw wake c.base t) [
    | none ↦ none
    | some (base, u) ↦ case4_change (record c { base = base }) u
  ]

module _ {F : Type 0} where
  -- The position is compared as an unsigned number.
  unfoldable pub case4_wait : TradeCase4 F → TradeInstance F → TradeCase4 F
  case4_wait c t =
      if leb t.max_pos (to_u64 (curr_pos c.base.side t))
      then record c { base = enters state_done c.base }
      else c

  abbrev pub equality_target : TradeAccount F → TradeInstance F → ℕ
  equality_target a t = t.max_pos * add32 a.tranch_counter 1 % 2 ^ 32

  unfoldable pub equality_wait : OnEquality F → TradeInstance F → OnEquality F
  equality_wait c t =
      if leb_ℤ (pos c.target_pos) (curr_pos c.base.side t)
      then record c { base = enters state_done c.base }
      else c

  unfoldable pub case6c_wait : TradeCase6C F → TradeInstance F → TradeCase6C F
  case6c_wait c t =
      if add32 c.tranch_at_init 1 == (account_of c.base.side t).tranch_counter
      then record c { base = enters state_done c.base }
      else c

module _ {F : Type 0} ⦃d : Double F⦄ (gw : Gateway F) (wake : TradeAccount F → TradeAccount F) where
  -- A step of the base class as one of the case.
  abbrev pub with_base :
      OnEquality F → Option (CaseBase F × TradeInstance F) → Option (OnEquality F × TradeInstance F)
  with_base c none = none
  with_base c (some (base, t)) = some (record c { base = base }, t)

  unfoldable pub equality_init :
      OnEquality F → TradeInstance F → Option (OnEquality F × TradeInstance F)
  equality_init c t = elim (send_requote_orders gw wake c.base t) [
    | none ↦ none
    | some (base, u) ↦ some (record c { base = enters state_price_change base }, u)
  ]

  unfoldable pub equality_reprice :
      OnEquality F → TradeInstance F → Option (OnEquality F × TradeInstance F)
  equality_reprice c t = with_base c (base_reprice gw wake c.base t)

  -- The orders' prices go from the first price of the table on, and their numbers are not kept.
  unfoldable pub case6c_init :
      TradeCase6C F → TradeInstance F → Option (TradeCase6C F × TradeInstance F)
  case6c_init c t =
      let side = c.base.side in
      let account = account_of side t in
      let residual = residual_of t.max_pos account.tranch_counter (get_position account) in
      let remainder = pos_part (to_i32 residual) in
      let first = starting_price account.position_table in
      if account.tranch_counter == t.tranch_value
      then some (record c { base = enters state_done c.base }, t)
      else on_current side t
          (requote_loop gw wake (step_price first c.base.sign t) remainder t.base_qty 1 remainder
            account)
          (λ _ u. some (record c { base = enters state_wait c.base }, u))
