-- ===== src/TradeCase/SoftClose.antt =====
-- `SoftClose`: the case that closes the excess of one account over the other, but not at a loss.
use tradingapp.Prelude.{ℕ, false, ◌||◌, Option, none, some, ◌==◌, if◌then◌else◌}
use tradingapp.Double.{Double, zero_point}
use tradingapp.OrderAccount.{Gateway}
use tradingapp.TradeAccount.State.{TradeAccount, get_average}
use tradingapp.TradeAccount.Requests.{close_position}
use tradingapp.TradeAccount.Changes.{change}
use tradingapp.TradeInstance.State.{
  TriggerState, trigger_init, trigger_positive, trigger_negative, CaseState, state_price_change,
  state_wait, state_done, Side, TradeInstance, opposite_of,
}
use tradingapp.TradeInstance.Prices.{close_price}
use tradingapp.TradeInstance.PanicClose.{lesser_side, trigger_of, excess}
use tradingapp.TradeCase.{on_opposite, is_level}

-- The members of the case that its steps change; `side` is the one of its current account, if any.
pub record SoftClose (F : Type 0) : Type 0 where
  pub state : CaseState
  pub send_price : F
  pub main_order_id : ℕ
  pub close_size : ℕ
  pub side : Option Side

module _ {F : Type 0} ⦃d : Double F⦄ where
  open d use {sub}

  -- The profit for a share that a price brings.
  abbrev pub soft_pnl : TriggerState → F → TradeAccount F → F
  soft_pnl trigger_positive price opposite = sub price (get_average opposite)
  soft_pnl trigger_negative price opposite = sub (get_average opposite) price
  soft_pnl trigger_init price opposite = zero_point

module _ {F : Type 0} ⦃d : Double F⦄ (gw : Gateway F) (wake : TradeAccount F → TradeAccount F) where
  open d use {lt, eq}

  -- From the choice of the accounts on. The state `FAILED` of an order that was not sent is
  -- overwritten.
  unfoldable pub soft_send :
      Side → SoftClose F → TradeInstance F → Option (SoftClose F × TradeInstance F)
  soft_send side s t =
      let size = excess side t in
      let price = close_price size zero_point t in
      let asked = record s { close_size = size; send_price = price; side = some side } in
      let opposite = opposite_of side t in
      if lt (soft_pnl t.trigger_state price opposite) zero_point
      then some (asked, t)
      else on_opposite side t (close_position gw wake price size false opposite)
          (λ id u. some (record asked { main_order_id = id; state = state_price_change }, u))

  -- The accounts of the case before, or none if these are null.
  unfoldable pub soft_level :
      Option Side → SoftClose F → TradeInstance F → Option (SoftClose F × TradeInstance F)
  soft_level none s t = none
  soft_level (some side) s t = soft_send side (record s { state = state_done }) t

  -- Equal positions do not return.
  unfoldable pub soft_from :
      Option Side → SoftClose F → TradeInstance F → Option (SoftClose F × TradeInstance F)
  soft_from none s t = soft_level s.side s t
  soft_from (some side) s t = soft_send side s (record t { trigger_state = trigger_of side })

  abbrev pub soft_init : SoftClose F → TradeInstance F → Option (SoftClose F × TradeInstance F)
  soft_init s t = soft_from (lesser_side t) s t

  -- `reprice`, for a case whose current account is known.
  unfoldable pub soft_reprice :
      Side → SoftClose F → TradeInstance F → Option (SoftClose F × TradeInstance F)
  soft_reprice side s t =
      let new_price = close_price s.close_size zero_point t in
      let opposite = opposite_of side t in
      if is_level side t
      then some (record s { state = state_done }, t)
      else if eq s.send_price new_price
      then some (s, t)
      else if lt (soft_pnl t.trigger_state new_price opposite) zero_point
      then some (s, t)
      else on_opposite side t (change gw wake s.main_order_id new_price 0 opposite) (λ id u. some (
        record s {
          state = if id == 0 || id == s.main_order_id then state_wait else s.state;
          main_order_id = id;
          send_price = new_price;
        },
        u,
      ))

module _ {F : Type 0} where
  unfoldable pub soft_wait : Side → SoftClose F → TradeInstance F → SoftClose F
  soft_wait side s t = if is_level side t then record s { state = state_done } else s
