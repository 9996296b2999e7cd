-- ===== src/TradeAccount/Cancelling.antt =====
-- Cancelling one order, and all of them.
use tradingapp.Prelude.{
  ℕ, ◌-◌, ◌≤◌, ◌≡◌, ◌≢◌, refl, Bool, true, false, none, some, Option-cases, Bool-cases, ◌∙◌, List,
  [], ◌∷◌, lookup, arith, inl, inr, if◌then◌else◌, ◌==◌,
}
use tradingapp.Prelude.Int.{pos, ◌+ℤ◌, ◌-ℤ◌, int_laws}
use tradingapp.Order.{
  OrderInfo, OrderAccountType, order_account_long, order_account_short, BuySell, bs_none, bs_buy,
  bs_sell, bs_sell_short, cancel_init, can_cancel,
}
use tradingapp.OrderAccount.{Gateway, has}
use tradingapp.OrderAccount.Ids.{has-without}
use tradingapp.TradeAccount.State.{TradeAccount, release, get_total_live_order_count}
use tradingapp.TradeAccount.Changes.{
  lookup_order, put_order, erase_order, wait_cancel_acknowledgement, cancel, cancel_each,
  is_cancel_done, erase_cancelled, cancel_all,
}

module _ {F : Type 0} where
  release-live :
      (kind : OrderAccountType) (side : BuySell) (n : ℕ) (t : TradeAccount F)
      → side ≢ bs_none
      → get_total_live_order_count (release kind side n t) ≡ get_total_live_order_count t -ℤ pos n
  unfolding release
  release-live order_account_long bs_none n t h = ground arith
  release-live order_account_long bs_buy n t h = omega int_laws
  release-live order_account_long bs_sell n t h = omega int_laws
  release-live order_account_long bs_sell_short n t h = omega int_laws
  release-live order_account_short bs_none n t h = ground arith
  release-live order_account_short bs_buy n t h = omega int_laws
  release-live order_account_short bs_sell n t h = omega int_laws
  release-live order_account_short bs_sell_short n t h = omega int_laws

  release-rest :
      (kind : OrderAccountType) (side : BuySell) (n : ℕ) (t : TradeAccount F)
      → let u = release kind side n t in
        (u.account ≡ t.account) × (u.orders ≡ t.orders) × (u.pending_orders ≡ t.pending_orders)
  unfolding release
  release-rest kind side n t = ground arith

  -- A wait for a cancellation that ends well.
  wait_cancel_acknowledgement-live :
      (id : ℕ) (w u : TradeAccount F)
      → wait_cancel_acknowledgement id w ≡ some (u, true)
      → (o : OrderInfo F) × (lookup id u.account.objects ≡ some o)
        × (u.orders ≡ w.orders)
        × (o.type ≢ bs_none
            → get_total_live_order_count u ≡ get_total_live_order_count w -ℤ pos o.order.open_size)
  unfolding wait_cancel_acknowledgement
  wait_cancel_acknowledgement-live id w u e = elim (Option-cases (lookup id w.account.objects)) [
    | inl missing ↦ ground arith
    | inr (o, found) ↦
        let rest = release-rest o.account_type o.type o.order.open_size w in
        let live = release-live o.account_type o.type o.order.open_size w in
        (o, ground arith, ground arith, λ sided. ground (arith, live sided))
  ]

module _ {F : Type 0} where
  -- The account when the wait for a cancellation begins.
  abbrev asked : ℕ → OrderInfo F → TradeAccount F → TradeAccount F
  asked id o t = put_order id (record o { on_order_cancel = true; cancel_stage = cancel_init }) t

module _ {F : Type 0} (gw : Gateway F) (wake : TradeAccount F → TradeAccount F) where
  cancel-waits :
      (id : ℕ) (t u : TradeAccount F)
      → cancel gw wake id t ≡ some (u, true)
      → (o : OrderInfo F) × (lookup_order id t ≡ some o)
        × (wait_cancel_acknowledgement id (wake (asked id o t)) ≡ some (u, true))
  unfolding cancel
  cancel-waits id t u e = elim (Option-cases (lookup_order id t)) [
    | inl missing ↦ ground arith
    | inr (o, found) ↦ (o, ground arith, ground arith)
  ]

  cancel-pending :
      ((t : TradeAccount F) → (wake t).pending_orders ≡ t.pending_orders)
      → (id : ℕ) (t u : TradeAccount F) (b : Bool) → cancel gw wake id t ≡ some (u, b)
      → u.pending_orders ≡ t.pending_orders
  unfolding cancel wait_cancel_acknowledgement
  cancel-pending quiet id t u b e = elim (Option-cases (lookup_order id t)) [
    | inl missing ↦ ground arith
    | inr (o, found) ↦
        let kept = quiet (asked id o t) in
        elim (Option-cases (lookup id (wake (asked id o t)).account.objects)) [
          | inl lost ↦ ground arith
          | inr (p, now) ↦ ground (
            arith,
            kept,
            release-rest p.account_type p.type p.order.open_size (wake (asked id o t)),
          )
        ]
  ]

  -- The fault. A cancellation that succeeds takes only the open shares of the order from the live
  -- shares, if the messages of the wait change no count. The shares that were filled before are
  -- still counted as live, and the account still knows the order.
  pub cancel-leaves_filled :
      ((t : TradeAccount F)
        → ((wake t).totalopen ≡ t.totalopen)
          × ((wake t).totalclose ≡ t.totalclose)
          × ((wake t).orders ≡ t.orders))
      → (id : ℕ) (t u : TradeAccount F) → cancel gw wake id t ≡ some (u, true)
      → (u.orders ≡ t.orders)
        × (o : OrderInfo F) × (lookup id u.account.objects ≡ some o)
        × (o.type ≢ bs_none
            → o.order.open_size ≤ o.size
            → get_total_live_order_count u +ℤ pos o.size
              ≡ get_total_live_order_count t +ℤ pos (o.size - o.order.open_size))
  cancel-leaves_filled quiet id t u e =
      let (o, found, waits) = cancel-waits id t u e in
      let kept = quiet (asked id o t) in
      let (p, now, orders, live) =
        wait_cancel_acknowledgement-live id (wake (asked id o t)) u waits in
      (rw orders kept.2, p, now, λ sided fits. rw (live sided, kept.0, kept.1) (omega int_laws))

  cancel_each-pending :
      ((t : TradeAccount F) → (wake t).pending_orders ≡ t.pending_orders)
      → (ids : List ℕ) (t u : TradeAccount F) → cancel_each gw wake ids t ≡ some u
      → u.pending_orders ≡ t.pending_orders
  unfolding cancel_each
  cancel_each-pending quiet [] t u e = ground arith
  cancel_each-pending quiet (id ∷ ids) t u e = elim (Option-cases (lookup_order id t)) [
    | inl missing ↦ cancel_each-pending quiet ids t u (ground arith)
    | inr (o, found) ↦ elim (Bool-cases (can_cancel o)) [
      | inl can ↦ elim (Option-cases (cancel gw wake id t)) [
        | inl lost ↦ ground arith
        | inr ((v, b), done) ↦
            cancel_each-pending quiet ids v u (ground arith) ∙ cancel-pending quiet id t v b done
      ]
      | inr cannot ↦ cancel_each-pending quiet ids t u (ground arith)
    ]
  ]

module _ {F : Type 0} where
  -- An order that was cancelled, and that the account knows all the same.
  abbrev pub is_cancelled : ℕ → TradeAccount F → Bool
  is_cancelled id t = elim (lookup_order id t) [
    | none ↦ false
    | some o ↦ is_cancel_done o.cancel_stage
  ]

  erase_cancelled-pending :
      (ids : List ℕ) (t : TradeAccount F)
      → (erase_cancelled ids t).pending_orders ≡ t.pending_orders
  unfolding erase_cancelled
  erase_cancelled-pending [] t = refl
  erase_cancelled-pending (id ∷ ids) t =
      ground (arith, erase_cancelled-pending ids (erase_order id t), erase_cancelled-pending ids t)

  erase_order-is_cancelled :
      (id j : ℕ) (t : TradeAccount F)
      → is_cancelled j (erase_order id t) ≡ (if id == j then false else is_cancelled j t)
  erase_order-is_cancelled id j t = ground (arith, has-without id j t.orders)

  erase_cancelled-keeps :
      (ids : List ℕ) (j : ℕ) (t : TradeAccount F)
      → is_cancelled j t ≡ false
      → is_cancelled j (erase_cancelled ids t) ≡ false
  unfolding erase_cancelled
  erase_cancelled-keeps [] j t h = h
  erase_cancelled-keeps (id ∷ ids) j t h =
      let once = erase_order-is_cancelled id j t in
      ground
        (arith, erase_cancelled-keeps ids j (erase_order id t), erase_cancelled-keeps ids j t h)

  erase_cancelled-gone :
      (ids : List ℕ) (j : ℕ) (t : TradeAccount F)
      → has j ids ≡ true
      → is_cancelled j (erase_cancelled ids t) ≡ false
  unfolding erase_cancelled
  erase_cancelled-gone [] j t h = ground arith
  erase_cancelled-gone (id ∷ ids) j t h =
      let once = erase_order-is_cancelled id j t in
      ground (
        arith,
        erase_cancelled-gone ids j (erase_order id t),
        erase_cancelled-gone ids j t,
        erase_cancelled-keeps ids j (erase_order id t),
        erase_cancelled-keeps ids j t,
      )

module _ {F : Type 0} (gw : Gateway F) (wake : TradeAccount F → TradeAccount F) where
  -- When cancelling every order comes to an end, and no message of the waits queues a request: no
  -- request waits any more, and the account knows no order whose cancellation succeeded.
  pub cancel_all-forgets :
      ((t : TradeAccount F) → (wake t).pending_orders ≡ t.pending_orders)
      → (t u : TradeAccount F) → cancel_all gw wake t ≡ some u
      → (u.pending_orders ≡ [])
        × ((j : ℕ) (o : OrderInfo F)
            → lookup_order j u ≡ some o
            → is_cancel_done o.cancel_stage ≡ false)
  unfolding cancel_all
  cancel_all-forgets quiet t u e =
      let start = record t { pending_orders = [] } in
      elim (Option-cases (cancel_each gw wake t.orders start)) [
        | inl lost ↦ ground arith
        | inr (v, done) ↦
            let same : u ≡ erase_cancelled v.orders v = ground arith in
            let emptied = cancel_each-pending gw wake quiet t.orders start v done in
            (
              rw (same, erase_cancelled-pending v.orders v) emptied,
              λ j o found.
                  ground
                    (arith, erase_cancelled-gone v.orders j v, erase_cancelled-keeps v.orders j v),
            )
      ]
