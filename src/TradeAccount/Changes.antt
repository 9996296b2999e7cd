-- ===== src/TradeAccount/Changes.antt =====
-- Changing and cancelling an order of a trade account. `wake` is what the threads of the exchange's
-- library do while the caller waits, and the answer is none while the wait has not ended.
use tradingapp.Prelude.{
  ℕ, ◌/◌, Bool, true, false, not, ◌&&◌, ◌||◌, Option, none, some, List, [], ◌∷◌, ltb, lookup,
  if◌then◌else◌,
}
use tradingapp.Prelude.Int.{pos, ◌+ℤ◌, ◌-ℤ◌}
use tradingapp.Order.{
  OrderInfo, changed_request, acknowledged, can_cancel, OrderAccountType, order_account_long,
  order_account_short, BuySell, bs_buy, bs_sell, bs_sell_short, CancelStage, cancel_none,
  cancel_init, cancel_fail, cancel_done,
}
use tradingapp.OrderAccount.{OrderAccount, Gateway, put, has, with_id, without}
use tradingapp.OrderAccount
use tradingapp.TradeAccount.State.{TradeAccount, release}

module _ {F : Type 0} where
  -- The object of a number that `orders` holds.
  abbrev pub lookup_order : ℕ → TradeAccount F → Option (OrderInfo F)
  lookup_order id t = if has id t.orders then lookup id t.account.objects else none

  abbrev pub put_order : ℕ → OrderInfo F → TradeAccount F → TradeAccount F
  put_order id o t = record t { account = put t.account id o }

  abbrev pub erase_order : ℕ → TradeAccount F → TradeAccount F
  erase_order id t = record t { orders = without id t.orders }

  -- The callback `onOrderChange`.
  unfoldable pub on_order_change : ℕ → Bool → TradeAccount F → TradeAccount F
  on_order_change id is_changed t = if is_changed then erase_order id t else t

  -- The callback `onOrderCancel`.
  unfoldable pub on_order_cancel : ℕ → OrderInfo F → Bool → TradeAccount F → TradeAccount F
  on_order_cancel id o is_cancel t =
      put_order id (record o { cancel_stage = if is_cancel then cancel_done else cancel_fail }) t

is_sell_short : BuySell → Bool
is_sell_short bs_sell_short = true
is_sell_short _ = false

is_sell : BuySell → Bool
is_sell bs_sell = true
is_sell _ = false

is_buy : BuySell → Bool
is_buy bs_buy = true
is_buy _ = false

module _ {F : Type 0} where
  -- The counts of live shares after a change of size, by the tests that the code makes in order.
  unfoldable pub recount :
      OrderAccountType → BuySell → BuySell → ℕ → ℕ → TradeAccount F → TradeAccount F
  unfolding is_sell_short is_sell is_buy
  recount order_account_long changed original old new t =
      if is_sell_short changed || (is_sell changed && is_sell original)
      then record t { totalclose = t.totalclose -ℤ pos old +ℤ pos new }
      else if is_buy changed && is_sell original
      then record t { totalclose = t.totalclose -ℤ pos old; totalopen = t.totalopen +ℤ pos new }
      else if is_sell_short changed || (is_sell changed && is_buy original)
      then record t { totalopen = t.totalopen -ℤ pos old; totalclose = t.totalclose +ℤ pos new }
      else if is_buy changed && is_buy original
      then record t { totalopen = t.totalopen -ℤ pos old +ℤ pos new }
      else t
  recount order_account_short changed original old new t =
      if is_sell_short changed || (is_sell changed && is_sell original)
      then record t { totalopen = t.totalopen -ℤ pos old +ℤ pos new }
      else if is_buy changed && is_sell original
      then record t { totalopen = t.totalopen -ℤ pos old; totalclose = t.totalclose +ℤ pos new }
      else if is_sell_short changed || (is_sell changed && is_buy original)
      then record t { totalclose = t.totalclose -ℤ pos old; totalopen = t.totalopen +ℤ pos new }
      else if is_buy changed && is_buy original
      then record t { totalclose = t.totalclose -ℤ pos old +ℤ pos new }
      else t

unfoldable pub is_cancel_done : CancelStage → Bool
is_cancel_done cancel_done = true
is_cancel_done _ = false

module _ {F : Type 0} where
  -- `waitCancelAcknowledgement`: the order's open shares leave the count when it is cancelled.
  unfoldable pub wait_cancel_acknowledgement : ℕ → TradeAccount F → Option (TradeAccount F × Bool)
  unfolding release
  wait_cancel_acknowledgement id t = elim (lookup id t.account.objects) [
    | none ↦ none
    | some o ↦ elim o.cancel_stage [
      | cancel_none ↦ none
      | cancel_init ↦ none
      | cancel_fail ↦ some (put_order id (record o { cancel_stage = cancel_none }) t, false)
      | cancel_done ↦ some (release o.account_type o.type o.order.open_size t, true)
    ]
  ]

  -- The second loop: the cancelled orders leave the map.
  unfoldable pub erase_cancelled : List ℕ → TradeAccount F → TradeAccount F
  unfolding is_cancel_done
  erase_cancelled [] t = t
  erase_cancelled (id ∷ ids) t =
      let gone : Bool = elim (lookup_order id t) [
        | none ↦ false
        | some o ↦ is_cancel_done o.cancel_stage
      ] in
      erase_cancelled ids (if gone then erase_order id t else t)

module _ {F : Type 0} (gw : Gateway F) (wake : TradeAccount F → TradeAccount F) where
  -- From the acknowledgement of a replacement on. `original` is the replaced order's number.
  unfoldable pub after_change : ℕ → ℕ → ℕ → TradeAccount F → Option (TradeAccount F × ℕ)
  unfolding recount
  after_change original id new_size t = elim (lookup id t.account.objects) [
    | none ↦ none
    | some o ↦
        if not (acknowledged o)
        then none
        else if not o.is_acknowledged
        then some (t, original)
        else let added = record t { orders = with_id id t.orders } in
          if ltb 0 new_size
          then elim (lookup original t.account.objects) [
            | none ↦ none
            | some old ↦ some (recount o.account_type o.type old.type old.size o.size added, id)
          ]
          else some (added, id)
  ]

  -- The number of the replacement; 0 for an unknown order, and the old number for a failure.
  unfoldable pub change : ℕ → F → ℕ → TradeAccount F → Option (TradeAccount F × ℕ)
  unfolding after_change OrderAccount.change
  change request_id new_price new_size t = elim (lookup_order request_id t) [
    | none ↦ some (t, 0)
    | some original ↦
        let watched = record original { on_order_change = true } in
        let changed = changed_request original new_price (new_size / t.divisor) in
        let told = put_order request_id watched t in
        let (account, sent) = OrderAccount.change gw watched changed told.account in
        elim sent [
          | none ↦ some (record told { account = account }, request_id)
          | some id ↦ after_change request_id id new_size (wake (record told { account = account }))
        ]
  ]

  unfoldable pub cancel : ℕ → TradeAccount F → Option (TradeAccount F × Bool)
  unfolding wait_cancel_acknowledgement
  cancel request_id t = elim (lookup_order request_id t) [
    | none ↦ some (t, false)
    | some o ↦
        let asked = record o { on_order_cancel = true; cancel_stage = cancel_init } in
        let told = put_order request_id asked t in
        if not (can_cancel o)
        then some (erase_order request_id t, false)
        else if not (OrderAccount.cancel gw asked)
        then some (told, false)
        else wait_cancel_acknowledgement request_id (wake told)
  ]

  -- The first loop of `cancelAll`, over the orders there when it starts.
  unfoldable pub cancel_each : List ℕ → TradeAccount F → Option (TradeAccount F)
  unfolding cancel
  cancel_each [] t = some t
  cancel_each (id ∷ ids) t =
      let next = λ (u : TradeAccount F). cancel_each ids u in
      elim (lookup_order id t) [
        | none ↦ next t
        | some o ↦
            if can_cancel o
            then elim (cancel id t) [ none ↦ none | some (u, _) ↦ next u ]
            else next t
      ]

  unfoldable pub cancel_all : TradeAccount F → Option (TradeAccount F)
  unfolding cancel_each erase_cancelled
  cancel_all t = elim (cancel_each t.orders (record t { pending_orders = [] })) [
    | none ↦ none
    | some u ↦ some (erase_cancelled u.orders u)
  ]

  unfoldable pub check_order_status : ℕ → TradeAccount F → Bool
  check_order_status id t = elim (lookup_order id t) [ none ↦ false | some o ↦ gw.order_status o ]
