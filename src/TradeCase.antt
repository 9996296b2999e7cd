-- ===== src/TradeCase.antt =====
-- The trade cases of trade/TradeCase.{h,cpp}: the members and functions of their base class. A step
-- of a case takes the case's members and the instance to new ones. Its answer is none while a wait
-- for the exchange has not ended, and where the program would read through a null pointer.
pub mod RequoteLoop
pub mod Requote
pub mod Hedge
pub mod SoftClose
pub mod Profit
pub mod Anticipated
pub mod Closing
pub mod MaxTlv
pub mod CloseTrigger
pub mod Sends
pub mod Lost
pub mod Frames
pub mod Steps
pub mod Outcomes
pub mod Owned
pub mod Life
pub mod Sides
mod Tests
pub mod Case10
pub mod Opening
use tradingapp.Prelude.{ℕ, Bool, true, false, Option, none, some, List, [], ◌&&◌, if◌then◌else◌}
use tradingapp.Prelude.Int.{ℤ, pos, negsuc, ◌-ℤ◌, ltb_ℤ, eqb_ℤ}
use tradingapp.Prelude.Word.{mul32}
use tradingapp.Double.{Double, zero_point}
use tradingapp.Order.{requote_order_done}
use tradingapp.TradeAccount.State.{TradeAccount, get_position}
use tradingapp.TradeAccount.Pending.{close_pending}
use tradingapp.TradeInstance.State.{
  TriggerState, trigger_init, trigger_positive, trigger_negative, CaseState, state_init, Side,
  long_side, short_side, TradeInstance, account_of, opposite_of,
}

-- The members of the base class. `round_target` is left out, as nothing reads it; `side` is the one
-- of the case's current account.
pub record CaseBase (F : Type 0) : Type 0 where
  pub state : CaseState
  pub side : Side
  pub send_price : F
  pub requote_price : F
  pub main_order_id : ℕ
  pub sign : ℤ
  pub requote_order_flag : Bool
  pub requote_orders : List ℕ

abbrev pub trigger_sign : TriggerState → ℤ
trigger_sign trigger_init = negsuc 0
trigger_sign trigger_positive = pos 1
trigger_sign trigger_negative = negsuc 0

module _ {F : Type 0} ⦃d : Double F⦄ where
  -- The constructor.
  abbrev pub new_base : Side → TriggerState → CaseBase F
  new_base side trigger = record {
    state = state_init;
    side = side;
    send_price = zero_point;
    requote_price = zero_point;
    main_order_id = 0;
    sign = trigger_sign trigger;
    requote_order_flag = false;
    requote_orders = [];
  }

module _ {F : Type 0} where
  abbrev pub enters : CaseState → CaseBase F → CaseBase F
  enters state c = record c { state = state }

  abbrev pub set_current : Side → TradeAccount F → TradeInstance F → TradeInstance F
  set_current long_side a t = record t { long_acc = a }
  set_current short_side a t = record t { short_acc = a }

  abbrev pub set_opposite : Side → TradeAccount F → TradeInstance F → TradeInstance F
  set_opposite long_side a t = record t { short_acc = a }
  set_opposite short_side a t = record t { long_acc = a }

  -- Going on after a call of the current, or of the opposite, account.
  abbrev pub on_current :
      {A B : Type 0}
      → Side
      → TradeInstance F
      → Option (TradeAccount F × A)
      → (A → TradeInstance F → Option B)
      → Option B
  on_current side t none next = none
  on_current side t (some (a, x)) next = next x (set_current side a t)

  abbrev pub on_opposite :
      {A B : Type 0}
      → Side
      → TradeInstance F
      → Option (TradeAccount F × A)
      → (A → TradeInstance F → Option B)
      → Option B
  on_opposite side t none next = none
  on_opposite side t (some (a, x)) next = next x (set_opposite side a t)

  abbrev pub curr_pos : Side → TradeInstance F → ℤ
  curr_pos side t = get_position (account_of side t)

  abbrev pub oppo_pos : Side → TradeInstance F → ℤ
  oppo_pos side t = get_position (opposite_of side t)

  -- Whether both accounts hold the same.
  abbrev pub is_level : Side → TradeInstance F → Bool
  is_level side t = eqb_ℤ (curr_pos side t) (oppo_pos side t)

  -- The callback of the orders that `trade_send_close` queues.
  unfoldable pub on_requote_order_done : CaseBase F → TradeInstance F → CaseBase F
  on_requote_order_done c t =
      if is_level c.side t then record c { requote_order_flag = true } else c

module _ {F : Type 0} ⦃d : Double F⦄ where
  open d use {of_int, add, sub, mul, lt, fabs}

  -- `std::max`
  abbrev pub greater : F → F → F
  greater a b = if lt a b then b else a

  unfoldable pub estimation_error : TradeInstance F → F
  estimation_error t =
      mul (greater (fabs (sub t.bar0.open_price t.price_estimate)) t.mpv_value)
        (of_int (pos t.mpv_multiplier))

  -- The callback of opening orders: an excess of the current account queues a closing order.
  unfoldable pub on_trade_send_close : F → ℕ → CaseBase F → TradeInstance F → TradeInstance F
  on_trade_send_close price size c t =
      let close_price = add price (mul (estimation_error t) (of_int c.sign)) in
      let close_size = mul32 size t.instance_divisor in
      if ltb_ℤ (oppo_pos c.side t) (curr_pos c.side t)
      then set_current c.side
          (close_pending close_price close_size requote_order_done (account_of c.side t)) t
      else t
