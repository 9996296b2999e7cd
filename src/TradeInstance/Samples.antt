-- ===== src/TradeInstance/Samples.antt =====
-- Instances that the tests of several modules start from.
use tradingapp.Prelude.{lookup, arith, ℕ, true, false, none, []}
use tradingapp.Prelude.Int.{ℤ, pos}
use tradingapp.Double.Units.{int_double}
use tradingapp.TradeAccount.Samples.{idle, idle_short}
use tradingapp.OrderAccount.Ids.{IsConsistent}
use tradingapp.TradeInstance.State.{
  trigger_init, trigger_positive, case_none, state_not_selected, Bar, SymbolStamp, TradeInstance,
}

abbrev pub bar : Bar ℤ
bar = record { open_price = pos 99; close_price = pos 100; minimum = pos 98; maximum = pos 101 }

abbrev pub stamp : ℕ → SymbolStamp ℤ
stamp estimate = record {
  price_estimate1 = pos estimate;
  price_estimate2 = pos estimate;
  stamp_bid_size = 500;
  stamp_bid_price = pos 99;
  stamp_ask_size = 400;
  stamp_ask_price = pos 101;
  bar = bar;
  bar_prev = bar;
}

abbrev pub started : TradeInstance ℤ
started = record {
  previous_case = case_none;
  last_state = state_not_selected;
  wait_for_next_time_window = false;
  wait_for_next_time_window_avicenna = pos 0;
  maximum_live = 100;
  share_rounds = [];
  max_round = 0;
  multiplier = pos 1;
  instrument_skew = pos 0;
  mpv_value = pos 1;
  mpv_multiplier = 1;
  base_qty = 5;
  max_pos = 10;
  tranch_value = 3;
  instance_divisor = 1;
  cancel_on_trigger = true;
  trigger_state = trigger_init;
  avicenna_trigger_state = trigger_init;
  prev_trigger_state = trigger_init;
  ask_size = 0;
  ask_price = pos 0;
  bid_size = 0;
  bid_price = pos 0;
  price_estimate = pos 0;
  price_estimate_prev = pos 0;
  avicenna_toggle = true;
  trade_price = pos 0;
  price_estimate_on_trigger = pos 0;
  reference_price = pos 0;
  short_acc = idle_short;
  long_acc = idle;
  current = none;
  is_enable = true;
  is_panic_close = false;
  panic_close_init = false;
  is_soft_close = false;
  soft_close_init = false;
  bar0 = bar;
  bar1 = bar;
}

-- A positive trigger, with 400 shares offered at 101 and 500 wanted at 99.
abbrev pub quoted : TradeInstance ℤ
quoted = record started {
  trigger_state = trigger_positive;
  ask_size = 400;
  ask_price = pos 101;
  bid_size = 500;
  bid_price = pos 99;
}

-- The short account holds four shares more than the long one.
abbrev pub uneven : TradeInstance ℤ
uneven = record quoted { short_acc = record idle_short { total = pos 4 } }

pub idle_short-IsConsistent : IsConsistent idle_short.account
unfolding lookup
idle_short-IsConsistent = record {
  bounded = λ id h. ground arith;
  object_bounded = λ id o h. ground arith;
  numbered = λ id o h. ground arith;
  linked = λ id h. ground arith;
}

pub idle-IsConsistent : IsConsistent idle.account
unfolding lookup
idle-IsConsistent = record {
  bounded = λ id h. ground arith;
  object_bounded = λ id o h. ground arith;
  numbered = λ id o h. ground arith;
  linked = λ id h. ground arith;
}
