-- ===== src/TradeCase/RequoteLoop.antt =====
-- The loop of `sendRequoteOrders` and of `TradeCase6C::init`: the rest of a position is opened in
-- orders of at most `base_qty` shares. It runs on fuel, and its answer is none if that runs out.
use tradingapp.Prelude.{
  ℕ, zero, suc, ◌+◌, ◌-◌, ◌≤◌, ◌<◌, ◌≡◌, Option, none, some, List, [], ◌∷◌, ltb, ◌==◌,
  if◌then◌else◌, arith, inl, inr, Bool-cases, Option-cases,
}
use tradingapp.Double.{Double}
use tradingapp.Order.{trade_send_close}
use tradingapp.OrderAccount.{Gateway}
use tradingapp.TradeAccount.State.{TradeAccount}
use tradingapp.TradeAccount.Requests.{open_with_done}

abbrev pub sum : List ℕ → ℕ
sum [] = 0
sum (x ∷ xs) = x + sum xs

-- Full orders of `base` shares, and a last one that has at most as many.
abbrev pub IsSplit : ℕ → List ℕ → Type 0
IsSplit base [] = 0 ≤ base
IsSplit base (size ∷ []) = (0 < size) × (size ≤ base)
IsSplit base (size ∷ next ∷ rest) = (size ≡ base) × IsSplit base (next ∷ rest)

abbrev pub order_size : ℕ → ℕ → ℕ
order_size base_qty remainder = if ltb base_qty remainder then base_qty else remainder

module _ {F : Type 0} where
  -- The number of an order that was sent is kept.
  abbrev pub collect :
      Option (TradeAccount F × ℕ)
      → (TradeAccount F → Option (TradeAccount F × List ℕ))
      → Option (TradeAccount F × List ℕ)
  collect none next = none
  collect (some (t, id)) next = elim (next t) [
    | none ↦ none
    | some (u, ids) ↦ some (u, if id == 0 then ids else id ∷ ids)
  ]

module _ {F : Type 0} ⦃d : Double F⦄ (gw : Gateway F) (wake : TradeAccount F → TradeAccount F)
    (price : ℕ → F) where
  -- The price goes by the order's index.
  unfoldable pub requote_loop : ℕ → ℕ → ℕ → ℕ → TradeAccount F → Option (TradeAccount F × List ℕ)
  requote_loop zero base_qty i remainder t = if remainder == 0 then some (t, []) else none
  requote_loop (suc fuel) base_qty i remainder t =
      let size = order_size base_qty remainder in
      let rest = λ (u : TradeAccount F). requote_loop fuel base_qty (i + 1) (remainder - size) u in
      if remainder == 0
      then some (t, [])
      else collect (open_with_done gw wake (price i) size trade_send_close t) rest

  -- Opening an order of each size, one after the other.
  unfoldable pub open_each : ℕ → List ℕ → TradeAccount F → Option (TradeAccount F × List ℕ)
  open_each i [] t = some (t, [])
  open_each i (size ∷ sizes) t =
      let rest = λ (u : TradeAccount F). open_each (i + 1) sizes u in
      collect (open_with_done gw wake (price i) size trade_send_close t) rest

-- The sizes that the loop opens.
split : ℕ → ℕ → ℕ → List ℕ
split zero base remainder = []
split (suc fuel) base remainder =
    let rest = split fuel base (remainder - order_size base remainder) in
    if remainder == 0 then [] else order_size base remainder ∷ rest

split-sum :
    (fuel base remainder : ℕ)
    → 0 < base
    → remainder ≤ fuel
    → sum (split fuel base remainder) ≡ remainder
unfolding split
split-sum zero base remainder h le = ground arith
split-sum (suc fuel) base remainder h le =
    ground (arith, split-sum fuel base (remainder - order_size base remainder) h)

split-IsSplit :
    (fuel base remainder : ℕ)
    → 0 < base
    → remainder ≤ fuel
    → IsSplit base (split fuel base remainder)
unfolding split
split-IsSplit zero base remainder h le = ground arith
split-IsSplit (suc zero) base remainder h le = ground arith
split-IsSplit (suc (suc fuel)) base remainder h le =
    ground (arith, split-IsSplit (suc fuel) base (remainder - order_size base remainder) h)

module _ {F : Type 0} ⦃d : Double F⦄ (gw : Gateway F) (wake : TradeAccount F → TradeAccount F)
    (price : ℕ → F) where
  requote_loop-split :
      (fuel base i remainder : ℕ) (t : TradeAccount F)
      → 0 < base
      → remainder ≤ fuel
      → requote_loop gw wake price fuel base i remainder t
        ≡ open_each gw wake price i (split fuel base remainder) t
  unfolding requote_loop open_each split
  requote_loop-split zero base i remainder t h le = ground arith
  requote_loop-split (suc fuel) base i remainder t h le = elim (Bool-cases (remainder == 0)) [
    | inl e ↦ rw e
    | inr e ↦
        let size = order_size base remainder in
        elim (Option-cases (open_with_done gw wake (price i) size trade_send_close t)) [
          | inl lost ↦ rw (e, lost)
          | inr ((u, id), found) ↦
              rw (e, found)
                (ground (arith, requote_loop-split fuel base (i + 1) (remainder - size) u h))
        ]
  ]

  -- The loop ends: with a positive size of orders and at least as much fuel as shares are left, it
  -- does what opening orders one after the other does, whose sizes are `base` each but for the last,
  -- which is not larger and not 0, and add up to the shares left.
  pub requote_loop-ends :
      (fuel base i remainder : ℕ) (t : TradeAccount F)
      → 0 < base
      → remainder ≤ fuel
      → (sizes : List ℕ) × (requote_loop gw wake price fuel base i remainder t
          ≡ open_each gw wake price i sizes t)
        × IsSplit base sizes
        × (sum sizes ≡ remainder)
  requote_loop-ends fuel base i remainder t h le = (
    split fuel base remainder,
    requote_loop-split fuel base i remainder t h le,
    split-IsSplit fuel base remainder h le,
    split-sum fuel base remainder h le,
  )
