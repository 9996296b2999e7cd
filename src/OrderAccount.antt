-- ===== src/OrderAccount.antt =====
-- akela/OrderAccount.cpp: the account that sends orders to the exchange and takes its messages.
-- The exchange's library is a parameter, `Gateway`. The map `order_hash` holds shared pointers, and
-- each stands under its own `request_id`, so an object is known by that number: `order_hash` lists
-- the numbers, and `objects` keeps what the pointers of all owners point to.
pub mod Ids
pub mod Sending
pub mod Replacing
pub mod Messages
mod Tests
use tradingapp.Prelude.{
  ℕ, ◌+◌, ◌≡◌, Bool, true, false, not, ◌||◌, Option, none, some, List, [], ◌∷◌, ltb, ◌==◌,
  if◌then◌else◌, lookup, update, emplace,
}
use tradingapp.Prelude.Word.{add32}
use tradingapp.Order.{
  OrderAccountType, order_account_long, order_account_short, BuySell, bs_buy, bs_sell,
  bs_sell_short, Stage, stage_acknowledged, stage_filled, stage_cancelled, stage_done, stage_failed,
  CancelStage, cancel_fail, cancel_done, OrderCondition, cond_pending_new, cond_new, cond_partial,
  cond_done, cond_canceled, cond_cancel_rejected, cond_too_late_to_cancel, cond_pending_change,
  cond_changed, cond_change_rejected, cond_gateway_throttle, cond_unknown, FillFunction,
  ExecutionOrder, OrderInfo,
}

-- The answers of the exchange's library: true is success.
pub record Gateway (F : Type 0) : Type 0 where
  pub set_limit_order : BuySell → F → ℕ → Bool
  pub post_order : ℕ → OrderInfo F → Bool
  pub cancel_order : OrderInfo F → Bool
  pub change_order : ℕ → ℕ → OrderInfo F → Bool
  pub order_status : OrderInfo F → Bool

pub record OrderAccount (F : Type 0) : Type 0 where
  pub account_type : OrderAccountType
  pub request_id_generator : ℕ
  pub order_hash : List ℕ
  pub objects : List (ℕ × OrderInfo F)

-- A call of an order's callback, with the order's number.
pub data Callback (F : Type 0) : Type 0 where
  on_acknowledgement : ℕ → Bool → Callback F
  on_order_done : ℕ → Callback F
  on_order_cancel : ℕ → Bool → Callback F
  on_order_change : ℕ → Bool → Callback F
  on_fill : FillFunction → ℕ → F → ℕ → Callback F

abbrev pub order_account_maximum_limit : ℕ
order_account_maximum_limit = 30

abbrev pub has : ℕ → List ℕ → Bool
has k [] = false
has k (j ∷ js) = j == k || has k js

abbrev pub without : ℕ → List ℕ → List ℕ
without k [] = []
without k (j ∷ js) = let rest = without k js in if j == k then rest else j ∷ rest

abbrev pub with_id : ℕ → List ℕ → List ℕ
with_id k [] = k ∷ []
with_id k (j ∷ js) = if j == k then j ∷ js else j ∷ with_id k js

abbrev pub sell_type : OrderAccountType → BuySell
sell_type order_account_long = bs_sell
sell_type order_account_short = bs_sell_short

abbrev pub by_type {ℓ} : {A : Type ℓ} → OrderAccountType → A → A → A
by_type order_account_long x y = x
by_type order_account_short x y = y

is_final : OrderCondition → Stage → Bool
is_final cond_done s = true
is_final cond_canceled s = true
is_final c stage_filled = true
is_final c s = false

module _ {F : Type 0} where
  abbrev pub put : OrderAccount F → ℕ → OrderInfo F → OrderAccount F
  put a id o = record a { objects = update id o a.objects }

  abbrev pub drop_id : OrderAccount F → ℕ → OrderAccount F
  drop_id a id = record a { order_hash = without id a.order_hash }

  -- `order_hash.emplace` under the next number.
  abbrev pub emplaced : OrderAccount F → ℕ → OrderInfo F → OrderAccount F
  emplaced a id o = record a {
    request_id_generator = id;
    order_hash = with_id id a.order_hash;
    objects = emplace id o a.objects;
  }

  -- The part that `limitBuy` and `limitSell` share: the number of the order, or none for `false`.
  unfoldable pub limit_order :
      Gateway F → BuySell → OrderInfo F → OrderAccount F → OrderAccount F × Option ℕ
  limit_order gw type o a =
      let id = add32 a.request_id_generator 1 in
      let sent : OrderInfo F = record o {
        type = type;
        request_id = id;
        account_type = a.account_type;
      } in
      let b : OrderAccount F = emplaced a id sent in
      if ltb order_account_maximum_limit o.size
      then (a, none)
      else if not (gw.set_limit_order type o.price_double o.size)
      then (a, none)
      else if not (gw.post_order id sent)
      then (b, none)
      else (b, some id)

  abbrev pub limit_buy : Gateway F → OrderInfo F → OrderAccount F → OrderAccount F × Option ℕ
  limit_buy gw o a = limit_order gw bs_buy o a

  abbrev pub limit_sell : Gateway F → OrderInfo F → OrderAccount F → OrderAccount F × Option ℕ
  limit_sell gw o a = limit_order gw (sell_type a.account_type) o a

  unfoldable pub open_order : Gateway F → OrderInfo F → OrderAccount F → OrderAccount F × Option ℕ
  unfolding limit_order
  open_order gw o a = by_type a.account_type (limit_buy gw o a) (limit_sell gw o a)

  unfoldable pub close_order : Gateway F → OrderInfo F → OrderAccount F → OrderAccount F × Option ℕ
  unfolding limit_order
  close_order gw o a = by_type a.account_type (limit_sell gw o a) (limit_buy gw o a)

  -- `true` if the exchange takes the request to cancel.
  unfoldable pub cancel : Gateway F → OrderInfo F → Bool
  unfolding is_final
  cancel gw o = if is_final o.order.condition o.stage then false else gw.cancel_order o

  unfoldable pub change :
      Gateway F → OrderInfo F → OrderInfo F → OrderAccount F → OrderAccount F × Option ℕ
  unfolding is_final
  change gw o changed a =
      let id = add32 a.request_id_generator 1 in
      let sent : OrderInfo F = record changed { request_id = id } in
      let b : OrderAccount F = emplaced a id sent in
      if ltb order_account_maximum_limit changed.size
      then (a, none)
      else if not (gw.set_limit_order o.type changed.price_double changed.size)
      then (a, none)
      else if is_final o.order.condition o.stage
      then (a, none)
      else if not (gw.change_order id o.order.reference_number sent)
      then (drop_id b id, none)
      else (b, some id)

  -- What `OnOrder` does to an order that it knows. The callback is called before the number leaves
  -- the map; no callback reads the map.
  unfoldable pub handle :
      OrderCondition → ℕ → OrderInfo F → OrderAccount F → OrderAccount F × Option (Callback F)
  handle cond_pending_new id o a = (put a id o, none)
  handle cond_new id o a =
      if o.on_acknowledgement
      then (
        put a id (record o { stage = stage_acknowledged; is_acknowledged = true }),
        some (on_acknowledgement id true),
      )
      else (put a id o, none)
  handle cond_partial id o a = (put a id o, none)
  handle cond_done id o a =
      if o.on_order_done
      then (drop_id (put a id (record o { stage = stage_done })) id, some (on_order_done id))
      else (drop_id (put a id o) id, none)
  handle cond_canceled id o a =
      if o.on_order_cancel
      then (
        drop_id (put a id (record o { stage = stage_cancelled; cancel_stage = cancel_done })) id,
        some (on_order_cancel id true),
      )
      else (drop_id (put a id o) id, none)
  handle cond_cancel_rejected id o a =
      if o.on_order_cancel
      then (put a id (record o { cancel_stage = cancel_fail }), some (on_order_cancel id false))
      else (put a id o, none)
  handle cond_too_late_to_cancel id o a =
      if o.on_order_cancel
      then (put a id (record o { cancel_stage = cancel_fail }), some (on_order_cancel id false))
      else (put a id o, none)
  handle cond_pending_change id o a = (put a id o, none)
  handle cond_changed id o a =
      (drop_id (put a id o) id, if o.on_order_change then some (on_order_change id true) else none)
  handle cond_change_rejected id o a =
      (put a id o, if o.on_order_change then some (on_order_change id false) else none)
  -- The order is posted again after a wait; a failure is only logged.
  handle cond_gateway_throttle id o a = (put a id o, none)
  handle _ id o a =
      if o.on_acknowledgement
      then (
        drop_id (put a id (record o { stage = stage_failed; is_acknowledged = false })) id,
        some (on_acknowledgement id false),
      )
      else (drop_id (put a id o) id, none)

  -- The object of a number in the map. The number of an order that the map does not hold has none.
  unfoldable pub find : ℕ → OrderAccount F → Option (OrderInfo F)
  find id a = if has id a.order_hash then lookup id a.objects else none

  unfoldable pub on_order :
      ℕ → ExecutionOrder → OrderAccount F → OrderAccount F × Option (Callback F)
  on_order id order a = elim (find id a) [
    | none ↦ (a, none)
    | some o ↦ handle order.condition id (record o { order = order }) a
  ]

  -- The copy of the message that the order keeps is not modelled.
  unfoldable pub on_order_cancel_message : ℕ → OrderAccount F → OrderAccount F
  on_order_cancel_message id a = elim (find id a) [
    | none ↦ a
    | some o ↦ put a id (record o { stage = stage_cancelled })
  ]

  unfoldable pub on_order_change_message : ℕ → OrderCondition → OrderAccount F → OrderAccount F
  on_order_change_message id cond_unknown a = elim (find id a) [
    | none ↦ a
    | some o ↦ put a id (record o { stage = stage_failed })
  ]
  on_order_change_message id _ a = a

  unfoldable pub on_fill_message :
      ℕ → F → ℕ → ℕ → OrderAccount F → OrderAccount F × Option (Callback F)
  on_fill_message id price size open_size a = elim (find id a) [
    | none ↦ (a, none)
    | some o ↦ (
      put a id (if open_size == 0 then record o { stage = stage_filled } else o),
      elim o.on_fill [ none ↦ none | some f ↦ some (on_fill f id price size) ],
    )
  ]

  unfoldable pub get_status : Gateway F → OrderInfo F → Bool
  get_status gw o = gw.order_status o
