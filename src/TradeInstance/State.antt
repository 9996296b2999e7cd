-- ===== src/TradeInstance/State.antt =====
-- The state of a trade instance and its plain operations. The pointers `current_acc` and
-- `opposite_acc` are null together, and else point to the two accounts, so they are one `Option Side`:
-- the side of the current account. `state` is left out, as nothing reads it.
-- `base_qty` is an `int` that is set from an unsigned number, and is taken not to be negative.
use tradingapp.Prelude.{
  ℕ, ◌%◌, ◌^◌, Bool, true, false, not, Option, none, some, List, if◌then◌else◌,
}
use tradingapp.Prelude.Int.{ℤ, pos, leb_ℤ}
use tradingapp.Double.{Double, zero_point}
use tradingapp.TradeAccount.State.{TradeAccount, get_average, set_average, set_price_in_force}

pub data TriggerState : Type 0 where
  trigger_init trigger_positive trigger_negative : TriggerState

pub data CaseType : Type 0 where
  case_none case_1 case_2 case_3 case_4 case_5 case_close_opposite case_hedge_current case_6c case_7
        case_9 case_10 case_max_tlv case_close_opposite_with_anticipated_pnl case_hedged_mode
        case_on_equality case_close_trigger panic_close soft_close :
      CaseType

pub data CaseState : Type 0 where
  state_init state_price_change state_open_mmf state_change_mmf state_wait state_failed state_done
        state_not_selected :
      CaseState

abbrev pub is_done : CaseState → Bool
is_done state_done = true
is_done _ = false

pub data Side : Type 0 where
  long_side short_side : Side

abbrev pub opposite_side : Side → Side
opposite_side long_side = short_side
opposite_side short_side = long_side

pub record ShareRound : Type 0 where
  pub increments : ℕ
  pub position : ℕ

pub record Bar (F : Type 0) : Type 0 where
  pub open_price : F
  pub close_price : F
  pub minimum : F
  pub maximum : F

-- The symbol's data as one call of `pop` and the reads after it find them.
pub record SymbolStamp (F : Type 0) : Type 0 where
  pub price_estimate1 : F
  pub price_estimate2 : F
  pub stamp_bid_size : ℕ
  pub stamp_bid_price : F
  pub stamp_ask_size : ℕ
  pub stamp_ask_price : F
  pub bar : Bar F
  pub bar_prev : Bar F

pub record TradeInstance (F : Type 0) : Type 0 where
  pub previous_case : CaseType
  pub last_state : CaseState
  pub wait_for_next_time_window : Bool
  pub wait_for_next_time_window_avicenna : F
  pub maximum_live : ℕ
  pub share_rounds : List ShareRound
  pub max_round : ℕ
  pub multiplier : F
  pub instrument_skew : F
  pub mpv_value : F
  pub mpv_multiplier : ℕ
  pub base_qty : ℕ
  pub max_pos : ℕ
  pub tranch_value : ℕ
  pub instance_divisor : ℕ
  pub cancel_on_trigger : Bool
  pub trigger_state : TriggerState
  pub avicenna_trigger_state : TriggerState
  pub prev_trigger_state : TriggerState
  pub ask_size : ℕ
  pub ask_price : F
  pub bid_size : ℕ
  pub bid_price : F
  pub price_estimate : F
  pub price_estimate_prev : F
  pub avicenna_toggle : Bool
  pub trade_price : F
  pub price_estimate_on_trigger : F
  pub reference_price : F
  pub short_acc : TradeAccount F
  pub long_acc : TradeAccount F
  pub current : Option Side
  pub is_enable : Bool
  pub is_panic_close : Bool
  pub panic_close_init : Bool
  pub is_soft_close : Bool
  pub soft_close_init : Bool
  pub bar0 : Bar F
  pub bar1 : Bar F

module _ {F : Type 0} where
  abbrev pub account_of : Side → TradeInstance F → TradeAccount F
  account_of long_side t = t.long_acc
  account_of short_side t = t.short_acc

  abbrev pub opposite_of : Side → TradeInstance F → TradeAccount F
  opposite_of long_side t = t.short_acc
  opposite_of short_side t = t.long_acc

  abbrev pub enable_panic_close : TradeInstance F → TradeInstance F
  enable_panic_close t = record t { is_panic_close = true; panic_close_init = true }

  abbrev pub disable_panic_close : TradeInstance F → TradeInstance F
  disable_panic_close t = record t { is_panic_close = false; panic_close_init = false }

  abbrev pub enable_soft_close : TradeInstance F → TradeInstance F
  enable_soft_close t = record t { is_soft_close = true; soft_close_init = true }

  abbrev pub disable_soft_close : TradeInstance F → TradeInstance F
  disable_soft_close t = record t { is_soft_close = false; soft_close_init = false }

  abbrev pub resume : TradeInstance F → TradeInstance F
  resume t = record t { is_enable = true }

  abbrev pub pause : TradeInstance F → TradeInstance F
  pause t = record t { is_enable = false }

  abbrev pub start_action : TradeInstance F → TradeInstance F
  start_action t = record t { is_enable = true }

  abbrev pub toggle_avicenna : TradeInstance F → TradeInstance F
  toggle_avicenna t = record t { avicenna_toggle = not t.avicenna_toggle }

  -- The sizes are narrowed to 32 bits.
  unfoldable pub read_symbol_data : SymbolStamp F → TradeInstance F → TradeInstance F
  read_symbol_data stamp t = record t {
    ask_size = stamp.stamp_ask_size % 2 ^ 32;
    ask_price = stamp.stamp_ask_price;
    bid_size = stamp.stamp_bid_size % 2 ^ 32;
    bid_price = stamp.stamp_bid_price;
    bar1 = stamp.bar_prev;
    bar0 = stamp.bar;
    price_estimate = if t.avicenna_toggle then stamp.price_estimate1 else stamp.price_estimate2;
  }

module _ {F : Type 0} ⦃d : Double F⦄ where
  open d use {of_int, add, sub, mul, fabs, trunc_i64}

  -- `offered - qto*multiplier`, narrowed to an `int64_t`.
  abbrev pub over_shares : ℕ → ℕ → TradeInstance F → ℤ
  over_shares offered qto t =
      trunc_i64 (sub (of_int (pos offered)) (mul (of_int (pos qto)) t.multiplier))

  unfoldable pub send_price : ℕ → TradeInstance F → F
  send_price qto t = elim t.trigger_state [
    | trigger_positive ↦
        if leb_ℤ (over_shares t.ask_size qto t) (pos 0) then t.ask_price else t.bid_price
    | trigger_negative ↦
        if leb_ℤ (over_shares t.bid_size qto t) (pos 0) then t.bid_price else t.ask_price
    | trigger_init ↦ zero_point
  ]

  -- `reprice`; none where a null pointer would be read.
  unfoldable pub reprice : TradeInstance F → Option (TradeInstance F)
  reprice t = elim t.current [
    | none ↦ none
    | some side ↦
        let spread =
          fabs (sub (get_average (account_of side t)) (get_average (opposite_of side t))) in
        let estimate = t.price_estimate_on_trigger in
        elim t.trigger_state [
          | trigger_init ↦ some t
          | trigger_positive ↦ some (record t {
            long_acc = set_price_in_force estimate t.long_acc;
            short_acc = set_price_in_force (sub estimate spread) t.short_acc;
          })
          | trigger_negative ↦ some (record t {
            short_acc = set_price_in_force estimate t.short_acc;
            long_acc = set_price_in_force (add estimate spread) t.long_acc;
          })
        ]
  ]

  -- Setting an average leaves the table's average, so that the spread is still taken from that one.
  unfoldable pub first_reprice : TradeInstance F → Option (TradeInstance F)
  first_reprice t = elim t.current [
    | none ↦ none
    | some side ↦
        let spread =
          fabs (sub (get_average (account_of side t)) (get_average (opposite_of side t))) in
        elim side [
          | long_side ↦ some (record t {
            long_acc = set_average t.price_estimate t.long_acc;
            short_acc = set_average (sub (get_average t.long_acc) spread) t.short_acc;
          })
          | short_side ↦ some (record t {
            short_acc = set_average t.price_estimate t.short_acc;
            long_acc = set_average (add (get_average t.short_acc) spread) t.long_acc;
          })
        ]
  ]
