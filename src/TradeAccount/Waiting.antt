-- ===== src/TradeAccount/Waiting.antt =====
-- The wait for an acknowledgement: what it leaves alone, and what a wait that ends well leads to.
use tradingapp.Prelude.{ℕ, ◌+◌, ◌^◌, ◌<◌, ◌≡◌, ◌≢◌, refl, true, Option, none, some, lookup, arith}
use tradingapp.Order.{OrderInfo, BuySell}
use tradingapp.OrderAccount.{OrderAccount, Gateway, open_order, close_order, find, has, with_id}
use tradingapp.OrderAccount.Ids.{IsConsistent, has-with_id}
use tradingapp.OrderAccount.Sending.{
  open_side, close_side, open_order-IsSent, close_order-IsSent, sent_order,
}
use tradingapp.TradeAccount.State.{TradeAccount}
use tradingapp.TradeAccount.Requests.{wait_acknowledgement, after_sending}

module _ {F : Type 0} where
  -- Two objects of one order: its messages change neither its side nor its size.
  pub record IsSameOrder (o p : OrderInfo F) : Type 0 where
    pub same_account : p.account_type ≡ o.account_type
    pub same_type : p.type ≡ o.type
    pub same_size : p.size ≡ o.size

  -- What the messages that arrive during a wait leave alone, if they end no order.
  pub record IsQuiet (wake : TradeAccount F → TradeAccount F) : Type 0 where
    pub keeps_open : (t : TradeAccount F) → (wake t).totalopen ≡ t.totalopen
    pub keeps_close : (t : TradeAccount F) → (wake t).totalclose ≡ t.totalclose
    pub keeps_order :
        (t : TradeAccount F) (id : ℕ) (o : OrderInfo F)
        → lookup id t.account.objects ≡ some o
        → (p : OrderInfo F) × (lookup id (wake t).account.objects ≡ some p) × IsSameOrder o p

  -- The account after a wait, before the count.
  abbrev woken : (TradeAccount F → TradeAccount F) → ℕ → TradeAccount F → TradeAccount F
  woken wake id t = record (wake t) { orders = with_id id (wake t).orders }

module _ {F : Type 0} (wake : TradeAccount F → TradeAccount F) (quiet : IsQuiet wake) (id : ℕ)
    (o : OrderInfo F) (count : TradeAccount F → TradeAccount F) where
  -- A wait answers its order's number once the order is acknowledged.
  wait_acknowledgement-counts :
      (t u : TradeAccount F) (k : ℕ)
      → lookup id t.account.objects ≡ some o
      → k ≢ 0
      → wait_acknowledgement id count (wake t) ≡ some (u, k)
      → (u ≡ count (woken wake id t)) × (k ≡ id)
  unfolding wait_acknowledgement
  wait_acknowledgement-counts t u k e nonzero r =
      let (p, found, same) = quiet.keeps_order t id o e in ground arith

module _ {F : Type 0} (gw : Gateway F) (wake : TradeAccount F → TradeAccount F)
    (quiet : IsQuiet wake) (t : TradeAccount F) (v : IsConsistent t.account)
    (room : t.account.request_id_generator + 1 < 2 ^ 32) where
  pub after_sending-counts :
      (count : TradeAccount F → TradeAccount F) (sent : OrderInfo F) (side : BuySell)
      (r : OrderAccount F × Option ℕ) (u : TradeAccount F) (k : ℕ)
      → k ≢ 0
      → ((a : OrderAccount F) (id : ℕ) → r ≡ (a, some id) → lookup id a.objects ≡ some sent)
      → after_sending wake count t r ≡ some (u, k)
      → (w : TradeAccount F) × (u ≡ count w)
        × (w.totalopen ≡ t.totalopen)
        × (w.totalclose ≡ t.totalclose)
        × (has k w.orders ≡ true)
        × (p : OrderInfo F) × IsSameOrder sent p
        × (lookup k w.account.objects ≡ some p)
  after_sending-counts count sent side (a, none) u k nonzero h e = ground arith
  after_sending-counts count sent side (a, some id) u k nonzero h e =
      let told = record t { account = a } in
      let found = h a id refl in
      let (shape, number) =
        wait_acknowledgement-counts wake quiet id sent count told u k found nonzero e in
      let (p, now, same) = quiet.keeps_order told id sent found in
      (
        woken wake id told,
        shape,
        quiet.keeps_open told,
        quiet.keeps_close told,
        rw number (rw (has-with_id id id (wake told).orders) (ground arith)),
        p,
        same,
        rw number now,
      )

  pub open_order-found :
      (o : OrderInfo F) (a : OrderAccount F) (id : ℕ)
      → open_order gw o t.account ≡ (a, some id)
      → lookup id a.objects ≡ some (sent_order gw o t.account (open_side t.account.account_type))
  unfolding find
  open_order-found o a id e =
      let (_, _, _, found, _) = open_order-IsSent gw o t.account v room a id e in ground arith

  pub close_order-found :
      (o : OrderInfo F) (a : OrderAccount F) (id : ℕ)
      → close_order gw o t.account ≡ (a, some id)
      → lookup id a.objects ≡ some (sent_order gw o t.account (close_side t.account.account_type))
  unfolding find
  close_order-found o a id e =
      let (_, _, _, found, _) = close_order-IsSent gw o t.account v room a id e in ground arith
