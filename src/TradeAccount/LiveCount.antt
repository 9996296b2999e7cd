-- ===== src/TradeAccount/LiveCount.antt =====
-- The counts of live shares: what sending an order adds to them and what its end takes away.
use tradingapp.Prelude.{
  ℕ, ◌+◌, ◌/◌, ◌^◌, ◌<◌, ◌≡◌, ◌≢◌, refl, Bool, true, false, some, lookup, arith, if◌then◌else◌,
}
use tradingapp.Prelude.Int.{pos, ◌+ℤ◌, ◌-ℤ◌, +ℤ_cancel}
use tradingapp.Double.{Double}
use tradingapp.Order.{OrderInfo, OrderAccountType, TradeDone}
use tradingapp.OrderAccount.{Gateway, open_order, close_order, has}
use tradingapp.OrderAccount.Ids.{IsConsistent, has-without}
use tradingapp.OrderAccount.Sending.{open_side, close_side, sent_order}
use tradingapp.TradeAccount.State.{TradeAccount, release}
use tradingapp.TradeAccount.Requests.{
  open_position, open_with_done, close_position, close_with_done, close_mmf, send_open, send_close,
  on_order_done, count_open, count_close,
}
use tradingapp.TradeAccount.Waiting.{
  IsQuiet, after_sending-counts, open_order-found, close_order-found,
}

module _ {F : Type 0} where
  -- The counts of `v` are those of `t`, and `v` does not know the order.
  abbrev pub IsRestored : TradeAccount F → ℕ → TradeAccount F → Type 0
  IsRestored t id v =
      (v.totalopen ≡ t.totalopen) × (v.totalclose ≡ t.totalclose) × (has id v.orders ≡ false)

  abbrev pub KeepsCounts : (TradeDone → F → ℕ → TradeAccount F → TradeAccount F) → Type 0
  KeepsCounts trade_done =
      (f : TradeDone) (price : F) (size : ℕ) (t : TradeAccount F)
      → let u = trade_done f price size t in
        (u.totalopen ≡ t.totalopen) × (u.totalclose ≡ t.totalclose)

  -- Whatever its case does on `TradeDone`, the end of the order takes back what its sending counted.
  abbrev pub EndRestores : TradeAccount F → ℕ → TradeAccount F → Type 0
  EndRestores t id u =
      (trade_done : TradeDone → F → ℕ → TradeAccount F → TradeAccount F) (o : OrderInfo F)
      → KeepsCounts trade_done
      → lookup id u.account.objects ≡ some o
      → IsRestored t id (on_order_done trade_done id o u)

  -- A live order that opens, or one that closes, of `size` lots.
  abbrev pub OpensLive : ℕ → TradeAccount F → TradeAccount F → ℕ → Type 0
  OpensLive size t u id =
      (u.totalopen ≡ t.totalopen +ℤ pos size)
      × (u.totalclose ≡ t.totalclose)
      × (has id u.orders ≡ true)
      × EndRestores t id u

  abbrev pub ClosesLive : ℕ → TradeAccount F → TradeAccount F → ℕ → Type 0
  ClosesLive size t u id =
      (u.totalopen ≡ t.totalopen)
      × (u.totalclose ≡ t.totalclose +ℤ pos size)
      × (has id u.orders ≡ true)
      × EndRestores t id u

module _ {F : Type 0} (gw : Gateway F) (wake : TradeAccount F → TradeAccount F)
    (quiet : IsQuiet wake) (t : TradeAccount F) (v : IsConsistent t.account)
    (room : t.account.request_id_generator + 1 < 2 ^ 32) where
  -- An end takes from the count that the side of the order belongs to.
  release-open :
      (kind : OrderAccountType) (n : ℕ) (u : TradeAccount F)
      → let r = release kind (open_side kind) n u in
        (r.totalopen ≡ u.totalopen -ℤ pos n) × (r.totalclose ≡ u.totalclose) × (r.orders ≡ u.orders)
  unfolding release
  release-open kind n u = ground arith

  release-close :
      (kind : OrderAccountType) (n : ℕ) (u : TradeAccount F)
      → let r = release kind (close_side kind) n u in
        (r.totalopen ≡ u.totalopen) × (r.totalclose ≡ u.totalclose -ℤ pos n) × (r.orders ≡ u.orders)
  unfolding release
  release-close kind n u = ground arith

  -- Which count the end of an object takes from, by the side it was sent with.
  on_order_done-open :
      (trade_done : TradeDone → F → ℕ → TradeAccount F → TradeAccount F)
      → KeepsCounts trade_done
      → (kind : OrderAccountType) (id : ℕ) (o : OrderInfo F) (u : TradeAccount F)
      → o.account_type ≡ kind
      → o.type ≡ open_side kind
      → let r = on_order_done trade_done id o u in
        (r.totalopen ≡ u.totalopen -ℤ pos o.size)
        × (r.totalclose ≡ u.totalclose)
        × (has id r.orders ≡ false)
  unfolding on_order_done
  on_order_done-open trade_done keeps kind id o u e f =
      let kept = keeps o.trade_done_function o.price_double o.size u in
      let told =
        if o.is_trade_done_define
        then trade_done o.trade_done_function o.price_double o.size u
        else u in
      let counted = record told { total_executed = told.total_executed +ℤ pos o.size } in
      let r = release kind (open_side kind) o.size counted in
      rw (e, f) (ground (arith, kept, release-open kind o.size counted, has-without id id r.orders))

  on_order_done-close :
      (trade_done : TradeDone → F → ℕ → TradeAccount F → TradeAccount F)
      → KeepsCounts trade_done
      → (kind : OrderAccountType) (id : ℕ) (o : OrderInfo F) (u : TradeAccount F)
      → o.account_type ≡ kind
      → o.type ≡ close_side kind
      → let r = on_order_done trade_done id o u in
        (r.totalopen ≡ u.totalopen)
        × (r.totalclose ≡ u.totalclose -ℤ pos o.size)
        × (has id r.orders ≡ false)
  unfolding on_order_done
  on_order_done-close trade_done keeps kind id o u e f =
      let kept = keeps o.trade_done_function o.price_double o.size u in
      let told =
        if o.is_trade_done_define
        then trade_done o.trade_done_function o.price_double o.size u
        else u in
      let counted = record told { total_executed = told.total_executed +ℤ pos o.size } in
      let r = release kind (close_side kind) o.size counted in
      rw (e, f)
        (ground (arith, kept, release-close kind o.size counted, has-without id id r.orders))

  send_open-OpensLive :
      (o : OrderInfo F) (u : TradeAccount F) (id : ℕ)
      → id ≢ 0
      → send_open gw wake o t ≡ some (u, id)
      → OpensLive o.size t u id
  send_open-OpensLive o u id nonzero e =
      let kind = t.account.account_type in
      let (w, shape, opened, closed, known, p, same, found) =
        after_sending-counts gw wake quiet t v room (count_open o.size)
          (sent_order gw o t.account (open_side kind)) (open_side kind) (open_order gw o t.account)
          u id nonzero (open_order-found gw wake quiet t v room o) e in
      rw shape (
        rw opened refl,
        closed,
        known,
        λ trade_done q keeps now. ground (
          arith,
          found,
          same,
          opened,
          closed,
          +ℤ_cancel t.totalopen (pos o.size),
          on_order_done-open trade_done keeps kind id q (count_open o.size w),
        ),
      )

  send_close-ClosesLive :
      (o : OrderInfo F) (u : TradeAccount F) (id : ℕ)
      → id ≢ 0
      → send_close gw wake o t ≡ some (u, id)
      → ClosesLive o.size t u id
  send_close-ClosesLive o u id nonzero e =
      let kind = t.account.account_type in
      let (w, shape, opened, closed, known, p, same, found) =
        after_sending-counts gw wake quiet t v room (count_close o.size)
          (sent_order gw o t.account (close_side kind)) (close_side kind)
          (close_order gw o t.account) u id nonzero (close_order-found gw wake quiet t v room o)
          e in
      rw shape (
        opened,
        rw closed refl,
        known,
        λ trade_done q keeps now. ground (
          arith,
          found,
          same,
          opened,
          closed,
          +ℤ_cancel t.totalclose (pos o.size),
          on_order_done-close trade_done keeps kind id q (count_close o.size w),
        ),
      )

  -- The same behind the check of the request.
  checked_open-OpensLive :
      (refused : Bool) (o : OrderInfo F) (u : TradeAccount F) (id : ℕ)
      → id ≢ 0
      → (if refused then some (t, 0) else send_open gw wake o t) ≡ some (u, id)
      → OpensLive o.size t u id
  checked_open-OpensLive true o u id nonzero e = ground arith
  checked_open-OpensLive false o u id nonzero e = send_open-OpensLive o u id nonzero e

  checked_close-ClosesLive :
      (refused : Bool) (o : OrderInfo F) (u : TradeAccount F) (id : ℕ)
      → id ≢ 0
      → (if refused then some (t, 0) else send_close gw wake o t) ≡ some (u, id)
      → ClosesLive o.size t u id
  checked_close-ClosesLive true o u id nonzero e = ground arith
  checked_close-ClosesLive false o u id nonzero e = send_close-ClosesLive o u id nonzero e

module _ {F : Type 0} ⦃d : Double F⦄ (gw : Gateway F) (wake : TradeAccount F → TradeAccount F)
    (quiet : IsQuiet wake) (t : TradeAccount F) (v : IsConsistent t.account)
    (room : t.account.request_id_generator + 1 < 2 ^ 32) (price : F) (size : ℕ) (u : TradeAccount F)
    (id : ℕ) (nonzero : id ≢ 0) where
  -- An opening that succeeds, on a consistent account whose generator of numbers does not wrap,
  -- while the messages of the wait end no order: the opening shares in the market grow by the lots
  -- of the request, the closing ones stay, and the account knows the order. When the order ends, the
  -- counts are those before it, and the account has forgotten it.
  pub open_position-OpensLive :
      ((send_mmf : Bool)
        → open_position gw wake price size send_mmf t ≡ some (u, id)
        → OpensLive (size / t.divisor) t u id)
      × ((f : TradeDone)
          → open_with_done gw wake price size f t ≡ some (u, id)
          → OpensLive (size / t.divisor) t u id)
  unfolding open_position open_with_done
  open_position-OpensLive = (
    λ b e. checked_open-OpensLive gw wake quiet t v room _ _ u id nonzero e,
    λ f e. checked_open-OpensLive gw wake quiet t v room _ _ u id nonzero e,
  )

  -- The same for a closing, with the closing shares. A closing request for an opening order counts
  -- its size as it is.
  pub close_position-ClosesLive :
      ((is_fco : Bool)
        → close_position gw wake price size is_fco t ≡ some (u, id)
        → ClosesLive (size / t.divisor) t u id)
      × ((f : TradeDone)
          → close_with_done gw wake price size f t ≡ some (u, id)
          → ClosesLive (size / t.divisor) t u id)
      × ((opening : ℕ)
          → close_mmf gw wake price size opening t ≡ some (u, id)
          → ClosesLive size t u id)
  unfolding close_position close_with_done close_mmf
  close_position-ClosesLive = (
    λ b e. checked_close-ClosesLive gw wake quiet t v room _ _ u id nonzero e,
    λ f e. checked_close-ClosesLive gw wake quiet t v room _ _ u id nonzero e,
    λ k e. checked_close-ClosesLive gw wake quiet t v room _ _ u id nonzero e,
  )
