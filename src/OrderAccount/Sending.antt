-- ===== src/OrderAccount/Sending.antt =====
-- What sending an order does to the account's map.
use tradingapp.Prelude.{
  ℕ, ◌+◌, ◌^◌, ◌≤◌, ◌<◌, ◌≡◌, ◌≢◌, refl, true, false, Option, none, some, arith, lookup,
}
use tradingapp.Prelude.Word.{add32, add32_small}
use tradingapp.Order.{
  OrderInfo, OrderAccountType, order_account_long, order_account_short, BuySell, bs_buy, bs_sell,
  bs_sell_short,
}
use tradingapp.OrderAccount.{
  Gateway, OrderAccount, limit_order, open_order, close_order, find, emplaced,
}
use tradingapp.OrderAccount.Ids.{IsConsistent, fresh, emplaced-find, emplaced-IsConsistent}

-- A long account opens by buying and closes by selling; a short one the other way round.
abbrev pub open_side : OrderAccountType → BuySell
open_side order_account_long = bs_buy
open_side order_account_short = bs_sell_short

abbrev pub close_side : OrderAccountType → BuySell
close_side order_account_long = bs_sell
close_side order_account_short = bs_buy

module _ {F : Type 0} (gw : Gateway F) (o : OrderInfo F) (a : OrderAccount F) where
  abbrev pub next_id : ℕ
  next_id = add32 a.request_id_generator 1

  abbrev pub sent_order : BuySell → OrderInfo F
  sent_order side = record o { type = side; request_id = next_id; account_type = a.account_type }

  open_order-limit : open_order gw o a ≡ limit_order gw (open_side a.account_type) o a
  unfolding open_order
  open_order-limit = ground arith

  close_order-limit : close_order gw o a ≡ limit_order gw (close_side a.account_type) o a
  unfolding close_order
  close_order-limit = ground arith

  -- The three ways in which sending ends: refused, not posted, or sent.
  limit_order_cases {ℓ} :
      (P : OrderAccount F × Option ℕ → Type ℓ) (side : BuySell)
      → P (a, none)
      → (o.size ≤ 30
          → gw.post_order next_id (sent_order side) ≡ false
          → P (emplaced a next_id (sent_order side), none))
      → (o.size ≤ 30 → P (emplaced a next_id (sent_order side), some next_id))
      → P (limit_order gw side o a)
  unfolding limit_order
  limit_order_cases P side refused lost sent = ground arith

  module _ (v : IsConsistent a) (room : a.request_id_generator + 1 < 2 ^ 32) where
    next : next_id ≡ a.request_id_generator + 1
    next = add32_small _ 1 room

    limit_order-IsConsistent : (side : BuySell) → IsConsistent (limit_order gw side o a).0
    limit_order-IsConsistent side =
        let w = emplaced-IsConsistent a next_id (sent_order side) v (omega (arith, next)) refl in
        limit_order_cases (λ r. IsConsistent r.0) side v (λ _ _. w) (λ _. w)

    -- What a sent order looks like: its number is the next one, which no order has, and the map
    -- holds it beside the others.
    abbrev pub IsSent : BuySell → OrderAccount F → ℕ → Type 0
    IsSent side b id =
        (o.size ≤ 30)
        × (id ≡ a.request_id_generator + 1)
        × (lookup id a.objects ≡ none)
        × (find id b ≡ some (sent_order side))
        × ((j : ℕ) → j ≢ id → find j b ≡ find j a)

    abbrev Ends : BuySell → OrderAccount F × Option ℕ → Type 0
    Ends side (b, none) = Unit
    Ends side (b, some id) = IsSent side b id

    emplaced-find_self : (x : OrderInfo F) → find next_id (emplaced a next_id x) ≡ some x
    emplaced-find_self x =
        ground (arith, emplaced-find a next_id next_id x (fresh a next_id v (omega (arith, next))))

    limit_order-Ends : (side : BuySell) → Ends side (limit_order gw side o a)
    limit_order-Ends side =
        let new = fresh a next_id v (omega (arith, next)) in
        limit_order_cases (Ends side) side tt (λ _ _. tt)
          λ small. (
            small,
            next,
            new,
            emplaced-find_self (sent_order side),
            λ j h. ground (arith, emplaced-find a next_id j (sent_order side) new),
          )

    -- Opening and closing keep the numbers of a consistent account in order, as long as the generator
    -- does not wrap.
    pub open_order-IsConsistent :
        IsConsistent (open_order gw o a).0 × IsConsistent (close_order gw o a).0
    open_order-IsConsistent = (
      rw open_order-limit (limit_order-IsConsistent _),
      rw close_order-limit (limit_order-IsConsistent _),
    )

    -- On a consistent account whose generator does not wrap, an order that is opened has at most 30
    -- lots and a number that no object had. It is a purchase for a long account and a short sale for
    -- a short one. The map then finds it under that number, and finds every other order as before.
    pub open_order-IsSent :
        (b : OrderAccount F) (id : ℕ)
        → open_order gw o a ≡ (b, some id)
        → IsSent (open_side a.account_type) b id
    open_order-IsSent b id e =
        let ends : Ends (open_side a.account_type) (open_order gw o a) =
          rw open_order-limit (limit_order-Ends _) in
        rw e at ends

    -- The same for an order that is closed: a sale for a long account and a purchase for a short one.
    pub close_order-IsSent :
        (b : OrderAccount F) (id : ℕ)
        → close_order gw o a ≡ (b, some id)
        → IsSent (close_side a.account_type) b id
    close_order-IsSent b id e =
        let ends : Ends (close_side a.account_type) (close_order gw o a) =
          rw close_order-limit (limit_order-Ends _) in
        rw e at ends

    -- The fault. When the exchange's library refuses to post an order that passed the checks, the
    -- opening fails, and the map holds the order that was never sent all the same.
    pub open_order-post_failure :
        o.size ≤ 30
        → gw.set_limit_order (open_side a.account_type) o.price_double o.size ≡ true
        → gw.post_order next_id (sent_order (open_side a.account_type)) ≡ false
        → let (b, result) = open_order gw o a in
          (result ≡ none) × (find next_id b ≡ some (sent_order (open_side a.account_type)))
    unfolding limit_order
    open_order-post_failure small formed lost =
        let found = emplaced-find_self (sent_order (open_side a.account_type)) in
        rw open_order-limit (ground arith)
