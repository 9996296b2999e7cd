-- ===== src/Order.antt =====
-- akela/OrderAccount.h (OrderInfo) and trade/AbstractTradeAccount.h (PositionRequest): one order.
-- Every order that the program sends is a PositionRequest, so the two structs are one record. The
-- symbol and the user's name are left out, as all orders of one trade account share them; so are
-- `mmf_order`, `open_request_id` and `fco_order`, which nothing reads. A callback that may be null
-- is a flag, or an `Option` that says which function it is.
use tradingapp.Prelude.{ℕ, Bool, true, false, not, ◌||◌, Option, none, some, if◌then◌else◌, ◌==◌}

pub data OrderAccountType : Type 0 where
  order_account_long order_account_short : OrderAccountType

-- `bs_none` is the value 0, before the order is sent.
pub data BuySell : Type 0 where
  bs_none bs_buy bs_sell bs_sell_short : BuySell

pub data Stage : Type 0 where
  stage_sent stage_acknowledged stage_filled stage_cancelled stage_changed stage_done stage_failed :
      Stage

pub data CancelStage : Type 0 where
  cancel_none cancel_init cancel_fail cancel_done : CancelStage

-- The conditions of the exchange's order messages; `cond_other` is any that the code does not name.
pub data OrderCondition : Type 0 where
  cond_pending_new cond_new cond_partial cond_done cond_canceled cond_cancel_rejected
        cond_too_late_to_cancel cond_pending_change cond_changed cond_change_rejected
        cond_gateway_throttle cond_denied cond_rejected cond_unknown cond_other :
      OrderCondition

pub data RequestType : Type 0 where
  request_open request_close request_change : RequestType

-- The `TradeDone` functions that trade cases hand over.
pub data TradeDone : Type 0 where
  no_function requote_order_done trade_send_close : TradeDone

pub data FillFunction : Type 0 where
  open_fill close_fill : FillFunction

-- The exchange's view of the order, as its last message gave it.
pub record ExecutionOrder : Type 0 where
  pub condition : OrderCondition
  pub open_size : ℕ
  pub reference_number : ℕ

pub record OrderInfo (F : Type 0) : Type 0 where
  pub is_acknowledged : Bool
  pub cancel_stage : CancelStage
  pub stage : Stage
  pub type : BuySell
  pub price_double : F
  pub request_id : ℕ
  pub account_type : OrderAccountType
  pub size : ℕ
  pub fill_size : ℕ
  pub order : ExecutionOrder
  pub on_acknowledgement : Bool
  pub on_order_cancel : Bool
  pub on_order_change : Bool
  pub on_order_done : Bool
  pub on_fill : Option FillFunction
  pub request_type : RequestType
  pub send_mmf_on_fills : Bool
  pub mmf_closed : ℕ
  pub is_mmf : Bool
  pub open_order : Option ℕ
  pub is_fco : Bool
  pub is_sco : Bool
  pub is_trade_done_define : Bool
  pub trade_done_function : TradeDone

-- The record as `order.Clear()` leaves it.
abbrev pub cleared_order : ExecutionOrder
cleared_order = record { condition = cond_pending_new; open_size = 0; reference_number = 0 }

is_sent : Stage → Bool
is_sent stage_sent = true
is_sent _ = false

is_cancellable : Stage → Bool
is_cancellable stage_cancelled = false
is_cancellable stage_done = false
is_cancellable stage_filled = false
is_cancellable stage_failed = false
is_cancellable _ = true

-- `none` where the function ends without a `return`.
open_type : OrderAccountType → BuySell → Option Bool
open_type order_account_long bs_buy = some true
open_type order_account_long bs_sell = some false
open_type order_account_short bs_sell_short = some true
open_type order_account_short bs_buy = some false
open_type _ _ = none

module _ {F : Type 0} where
  -- The constructor for a new request.
  abbrev pub new_request : ℕ → F → OrderInfo F
  new_request size price = record {
    is_acknowledged = false;
    cancel_stage = cancel_none;
    stage = stage_sent;
    type = bs_none;
    price_double = price;
    request_id = 0;
    account_type = order_account_long;
    size = size;
    fill_size = 0;
    order = cleared_order;
    on_acknowledgement = false;
    on_order_cancel = false;
    on_order_change = false;
    on_order_done = false;
    on_fill = none;
    request_type = request_open;
    send_mmf_on_fills = false;
    mmf_closed = 0;
    is_mmf = false;
    open_order = none;
    is_fco = false;
    is_sco = false;
    is_trade_done_define = true;
    trade_done_function = no_function;
  }

  -- The constructor for a request that replaces another; size 0 keeps the size.
  abbrev pub changed_request : OrderInfo F → F → ℕ → OrderInfo F
  changed_request original new_price new_size = record original {
    size = if new_size == 0 then original.size else new_size;
    price_double = new_price;
    stage = stage_sent;
    cancel_stage = cancel_none;
    is_acknowledged = false;
    request_id = 0;
    fill_size = 0;
    request_type = request_open;
    mmf_closed = 0;
    is_fco = false;
    is_sco = false;
  }

  -- A thread that waits for the acknowledgement goes on when this holds.
  unfoldable pub acknowledged : OrderInfo F → Bool
  unfolding is_sent
  acknowledged o = not (is_sent o.stage) || o.is_acknowledged

  unfoldable pub can_cancel : OrderInfo F → Bool
  unfolding is_cancellable
  can_cancel o = is_cancellable o.stage

  unfoldable pub is_type_open : OrderInfo F → Option Bool
  unfolding open_type
  is_type_open o = open_type o.account_type o.type
