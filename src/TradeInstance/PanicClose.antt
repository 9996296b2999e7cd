-- ===== src/TradeInstance/PanicClose.antt =====
-- `PanicClose` of trade/TradeCase.cpp: the case that closes the excess of one account over the other.
-- The answer of a step is none while a wait for the exchange has not ended.
use tradingapp.Prelude.{
  ℕ, ◌/◌, ◌<◌, ◌≡◌, refl, false, ◌||◌, Option, none, some, inl, inr, ◌==◌, arith, ap, Option-cases,
  Bool-cases, ◌+◌, ◌^◌, if◌then◌else◌,
}
use tradingapp.Prelude.Int.{pos, ◌+ℤ◌, ◌-ℤ◌, ltb_ℤ, eqb_ℤ, to_u32}
use tradingapp.Double.{Double, zero_point}
use tradingapp.OrderAccount.{Gateway}
use tradingapp.TradeAccount.State.{TradeAccount, get_position}
use tradingapp.TradeAccount.Requests.{close_position}
use tradingapp.TradeAccount.Changes.{change}
use tradingapp.TradeAccount.Refusals.{requests-refused}
use tradingapp.TradeAccount.Waiting.{IsQuiet}
use tradingapp.TradeAccount.LiveCount.{close_position-ClosesLive}
use tradingapp.OrderAccount.Ids.{IsConsistent}
use tradingapp.TradeInstance.State.{
  TriggerState, trigger_init, trigger_positive, trigger_negative, CaseState, state_price_change,
  state_wait, state_failed, state_done, Side, long_side, short_side, TradeInstance, account_of,
  opposite_of,
}

-- The members of the case that its steps change; `side` is the one of its current account.
pub record PanicClose (F : Type 0) : Type 0 where
  pub state : CaseState
  pub send_price : F
  pub main_order_id : ℕ
  pub close_size : ℕ
  pub side : Option Side

abbrev pub trigger_of : Side → TriggerState
trigger_of long_side = trigger_positive
trigger_of short_side = trigger_negative

module _ {F : Type 0} where
  -- Replacing the account opposite to a side.
  abbrev pub with_opposite : Side → TradeAccount F → TradeInstance F → TradeInstance F
  with_opposite long_side a t = record t { short_acc = a }
  with_opposite short_side a t = record t { long_acc = a }

  -- The side whose account holds less, or none if both hold the same.
  unfoldable pub lesser_side : TradeInstance F → Option Side
  lesser_side t =
      if eqb_ℤ (get_position t.short_acc) (get_position t.long_acc)
      then none
      else if ltb_ℤ (get_position t.long_acc) (get_position t.short_acc)
      then some long_side
      else some short_side

  market_price : TriggerState → F → TradeInstance F → F
  market_price trigger_positive other t = t.ask_price
  market_price trigger_negative other t = t.bid_price
  market_price trigger_init other t = other

  abbrev pub excess : Side → TradeInstance F → ℕ
  excess side t = to_u32 (get_position (opposite_of side t) -ℤ get_position (account_of side t))

  -- What the answer of the closing request means.
  abbrev pub after_close :
      Side
      → PanicClose F
      → TradeInstance F
      → Option (TradeAccount F × ℕ)
      → Option (PanicClose F × TradeInstance F)
  after_close side q t none = none
  after_close side q t (some (a, id)) = some (
    record q { main_order_id = id; state = if id == 0 then state_failed else state_price_change },
    with_opposite side a t,
  )

module _ {F : Type 0} ⦃d : Double F⦄ (gw : Gateway F) (wake : TradeAccount F → TradeAccount F) where
  open d use {eq}

  -- The order for the excess, from a chosen side on.
  unfoldable pub send_excess :
      Side → PanicClose F → TradeInstance F → Option (PanicClose F × TradeInstance F)
  unfolding market_price
  send_excess side p start =
      let t = record start { trigger_state = trigger_of side } in
      let price = market_price t.trigger_state p.send_price t in
      let size = excess side start in
      let q = record p { side = some side; send_price = price; close_size = size } in
      after_close side q t (close_position gw wake price size false (opposite_of side start))

  unfoldable pub panic_from :
      Option Side → PanicClose F → TradeInstance F → Option (PanicClose F × TradeInstance F)
  panic_from none p t = some (record p { state = state_done }, t)
  panic_from (some side) p t = send_excess side p t

  abbrev pub panic_init : PanicClose F → TradeInstance F → Option (PanicClose F × TradeInstance F)
  panic_init p t = panic_from (lesser_side t) p t

  -- `reprice`, for a case whose current account is known.
  unfoldable pub panic_reprice :
      Side → PanicClose F → TradeInstance F → Option (PanicClose F × TradeInstance F)
  unfolding market_price change
  panic_reprice side p t =
      let new_price = market_price t.trigger_state zero_point t in
      if eqb_ℤ (get_position (opposite_of side t)) (get_position (account_of side t))
      then some (record p { state = state_done }, t)
      else if eq new_price p.send_price
      then some (p, t)
      else elim (change gw wake p.main_order_id new_price 0 (opposite_of side t)) [
        | none ↦ none
        | some (a, id) ↦ some (
          if id == 0 || id == p.main_order_id
              then record p { state = state_wait }
              else record p { main_order_id = id; send_price = new_price },
          with_opposite side a t,
        )
      ]

  unfoldable pub panic_wait : Side → PanicClose F → TradeInstance F → PanicClose F
  panic_wait side p t =
      if eqb_ℤ (get_position (account_of side t)) (get_position (opposite_of side t))
      then record p { state = state_done }
      else p

  -- The fault. If the account that holds more has an excess of more than 30 lots, the panic close
  -- fails in its first step: it sends no order, and both accounts are as before. A failed panic close
  -- does nothing in later turns.
  pub panic_init-fails :
      (side : Side) (p : PanicClose F) (t : TradeInstance F)
      → lesser_side t ≡ some side
      → 30 < excess side t / (opposite_of side t).divisor
      → (q : PanicClose F) × (u : TradeInstance F) × (panic_init p t ≡ some (q, u))
        × (q.state ≡ state_failed)
        × (u.long_acc ≡ t.long_acc)
        × (u.short_acc ≡ t.short_acc)
  unfolding panic_from send_excess
  panic_init-fails side p t e large =
      let start : TradeInstance F = record t { trigger_state = trigger_of side } in
      let price = market_price (trigger_of side) p.send_price start in
      let size = excess side t in
      let q : PanicClose F = record p { side = some side; send_price = price; close_size = size } in
      let (_, _, closes, _) =
        requests-refused gw wake price size (opposite_of side t) (inr large) in
      (
        record q { main_order_id = 0; state = state_failed },
        with_opposite side (opposite_of side t) start,
        rw e (ap (after_close side q start) (closes false)),
        refl,
        ground arith,
        ground arith,
      )

  -- A panic close that sends its order, on a consistent account whose generator of numbers does not
  -- wrap, while the messages of the wait end no order: the live shares that close grow, in the
  -- account that holds more, by the lots of its excess, and its live shares that open and the other
  -- account stay as they are.
  pub panic_init-closes :
      (side : Side) (p q : PanicClose F) (t u : TradeInstance F)
      → IsQuiet wake
      → IsConsistent (opposite_of side t).account
      → (opposite_of side t).account.request_id_generator + 1 < 2 ^ 32
      → lesser_side t ≡ some side
      → panic_init p t ≡ some (q, u)
      → q.state ≡ state_price_change
      → ((opposite_of side u).totalclose
          ≡ (opposite_of side t).totalclose +ℤ pos (excess side t / (opposite_of side t).divisor))
        × ((opposite_of side u).totalopen ≡ (opposite_of side t).totalopen)
        × (account_of side u ≡ account_of side t)
  unfolding panic_from send_excess
  panic_init-closes side p q t u quiet v room e sent going =
      let start : TradeInstance F = record t { trigger_state = trigger_of side } in
      let price = market_price (trigger_of side) p.send_price start in
      let size = excess side t in
      let asked : PanicClose F = record p {
        side = some side;
        send_price = price;
        close_size = size;
      } in
      let opposite = opposite_of side t in
      let result = close_position gw wake price size false opposite in
      let answer : after_close side asked start result ≡ some (q, u) = ground (arith, sent, e) in
      elim (Option-cases result) [
        | inl lost ↦ ground arith
        | inr ((a, id), found) ↦
            let live = close_position-ClosesLive gw wake quiet opposite v room price size a id in
            let reached : after_close side asked start (some (a, id)) ≡ some (q, u) =
              rw found at answer in
            elim (Bool-cases (id == 0)) [
              | inl failed ↦ ground (arith, reached, failed, going)
              | inr sent_one ↦
                  let (opened, closed, _, _) = (live (ground (arith, sent_one))).0 false found in
                  ground (arith, reached, opened, closed)
            ]
      ]
