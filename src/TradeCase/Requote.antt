-- ===== src/TradeCase/Requote.antt =====
-- The requote orders of a trade case: `sendRequoteOrders`, `updateRequoteOrders` and the base class's
-- `reprice`.
use tradingapp.Prelude.{
  ℕ, ◌+◌, ◌*◌, ◌%◌, ◌^◌, Bool, not, ◌&&◌, Option, none, some, List, [], ◌∷◌, ◌++◌, ◌==◌,
  if◌then◌else◌,
}
use tradingapp.Prelude.Int.{ℤ, pos, pos_part, ◌-ℤ◌, ltb_ℤ, eqb_ℤ, to_i32, to_u64}
use tradingapp.Prelude.Word.{add32}
use tradingapp.Double.{Double, zero_point}
use tradingapp.OrderAccount.{Gateway}
use tradingapp.TradeAccount.State.{TradeAccount, get_position}
use tradingapp.TradeAccount.Changes.{change, cancel_all, check_order_status}
use tradingapp.TradeAccount.Pending.{send_pending_orders}
use tradingapp.TradeInstance.State.{
  trigger_init, trigger_positive, trigger_negative, TradeInstance, account_of,
}
use tradingapp.TradeCase.{CaseBase, set_current, is_level}
use tradingapp.TradeCase.RequoteLoop.{requote_loop}

-- `max_pos*(counter + 1) - position` as a `size_t`.
abbrev pub residual_of : ℕ → ℕ → ℤ → ℕ
residual_of max_pos counter position = to_u64 (pos (max_pos * add32 counter 1 % 2 ^ 64) -ℤ position)

module _ {F : Type 0} where
  -- The orders that were sent join those of the case.
  abbrev pub add_orders :
      CaseBase F
      → TradeInstance F
      → Option (TradeAccount F × List ℕ)
      → Option (CaseBase F × TradeInstance F)
  add_orders c t none = none
  add_orders c t (some (a, ids)) =
      some (record c { requote_orders = c.requote_orders ++ ids }, set_current c.side a t)

  abbrev pub replace_orders :
      CaseBase F
      → TradeInstance F
      → Option (TradeAccount F × List ℕ)
      → Option (CaseBase F × TradeInstance F)
  replace_orders c t none = none
  replace_orders c t (some (a, ids)) =
      some (record c { requote_orders = ids }, set_current c.side a t)

module _ {F : Type 0} ⦃d : Double F⦄ where
  open d use {of_int, add, sub, mul, lt, le}

  -- The price of the order with an index, from the first price on.
  abbrev pub step_price : F → ℤ → TradeInstance F → ℕ → F
  step_price first sign t i = sub first (mul (mul (of_int sign) t.mpv_value) (of_int (pos i)))

  abbrev pub requote_start : ℤ → TradeInstance F → F
  requote_start sign t = if eqb_ℤ sign (pos 1) then t.bid_price else t.ask_price

  abbrev pub price_condition : F → ℤ → TradeInstance F → Bool
  price_condition price sign t =
      let limit =
        add t.bar1.close_price
          (mul (mul t.mpv_value (of_int (pos t.mpv_multiplier))) (of_int sign)) in
      if ltb_ℤ (pos 0) sign then le price limit else le limit price

  -- The new price of the requote orders, if they are to be changed.
  unfoldable pub better_price : F → TradeInstance F → Option F
  better_price requote_price t = elim t.trigger_state [
    | trigger_positive ↦
        if lt requote_price t.bid_price && lt zero_point t.instrument_skew
        then some t.bid_price
        else none
    | trigger_negative ↦
        if lt t.ask_price requote_price && lt t.instrument_skew zero_point
        then some t.ask_price
        else none
    | trigger_init ↦ none
  ]

module _ {F : Type 0} ⦃d : Double F⦄ (gw : Gateway F) (wake : TradeAccount F → TradeAccount F) where
  open d use {of_int, add, mul}

  -- Erasing the orders that cannot be changed or are no longer in the market.
  abbrev pub live_orders : TradeAccount F → List ℕ → List ℕ
  live_orders a [] = []
  live_orders a (id ∷ ids) =
      let rest = live_orders a ids in
      if not (id == 0) && check_order_status gw wake id a then id ∷ rest else rest

  -- The loop over the orders of `updateRequoteOrders`. The test before `i++` fails only for a
  -- number 0 that stays 0.
  unfoldable pub change_each :
      F → ℤ → F → ℕ → List ℕ → TradeAccount F → Option (TradeAccount F × List ℕ)
  change_each price sign mpv i [] a = some (a, [])
  change_each price sign mpv i (order ∷ orders) a =
      let new_price = add price (mul (mul (of_int (pos i)) mpv) (of_int sign)) in
      let rest = λ (next : ℕ) (b : TradeAccount F). change_each price sign mpv next orders b in
      elim (change gw wake order new_price 0 a) [
        | none ↦ none
        | some (b, new_order) ↦
            let next = if new_order == 0 && order == 0 then i else i + 1 in
            elim (rest next b) [ none ↦ none | some (c, ids) ↦ some (c, new_order ∷ ids) ]
      ]

  unfoldable pub send_requote_orders :
      CaseBase F → TradeInstance F → Option (CaseBase F × TradeInstance F)
  send_requote_orders c t =
      let account = account_of c.side t in
      let residual = residual_of t.max_pos account.tranch_counter (get_position account) in
      let remainder = pos_part (to_i32 residual) in
      let first = requote_start c.sign t in
      let priced = record c { requote_price = first } in
      if account.tranch_counter == t.tranch_value
      then some (c, t)
      else if price_condition first c.sign t
      then add_orders priced t (
          requote_loop gw wake (step_price first c.sign t) remainder t.base_qty 0 remainder account)
      else some (priced, t)

  -- Cancelling everything before new requote orders are sent.
  abbrev pub send_anew :
      CaseBase F → TradeInstance F → Option (TradeAccount F) → Option (CaseBase F × TradeInstance F)
  send_anew c t none = none
  send_anew c t (some a) = send_requote_orders c (set_current c.side a t)

  -- With the requote orders that are left.
  unfoldable pub change_requote_orders :
      List ℕ → CaseBase F → TradeInstance F → Option (CaseBase F × TradeInstance F)
  change_requote_orders [] c t =
      send_anew (record c { requote_orders = [] }) t (cancel_all gw wake (account_of c.side t))
  change_requote_orders kept c t = elim (better_price c.requote_price t) [
    | none ↦ some (record c { requote_orders = kept }, t)
    | some price ↦
        replace_orders (record c { requote_price = price }) t
          (change_each price c.sign t.mpv_value 0 kept (account_of c.side t))
  ]

  unfoldable pub update_requote_orders :
      CaseBase F → TradeInstance F → Option (CaseBase F × TradeInstance F)
  update_requote_orders c t =
      if not (is_level c.side t)
      then some (c, t)
      else change_requote_orders (live_orders (account_of c.side t) c.requote_orders) c t

  -- Sending what waits in the queue of the current account.
  unfoldable pub send_queue :
      Option (CaseBase F × TradeInstance F) → Option (CaseBase F × TradeInstance F)
  send_queue none = none
  send_queue (some (c, t)) = elim (send_pending_orders gw wake (account_of c.side t)) [
    | none ↦ none
    | some a ↦ some (c, set_current c.side a t)
  ]

  -- `TradeCase::reprice`
  unfoldable pub base_reprice : CaseBase F → TradeInstance F → Option (CaseBase F × TradeInstance F)
  base_reprice c t =
      send_queue (
        if is_level c.side t && c.requote_order_flag
        then update_requote_orders c t
        else some (c, t))
