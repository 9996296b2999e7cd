-- ===== src/TradeCase/Tests.antt =====
-- Runs of trade cases over whole price units, and the theorems at concrete instances.
use tradingapp.Prelude.{
  ℕ, ◌≡◌, refl, true, none, some, List, [], ◌∷◌, arith, lookup, update, emplace, min,
}
use tradingapp.Prelude.Int.{ℤ, pos, ◌+ℤ◌, ◌-ℤ◌, ◌*ℤ◌, to_u32}
use tradingapp.Prelude.Word.{add32, mul32}
use tradingapp.Prelude.Int.{quot}
use tradingapp.Double.Units.{int_double, div_ℤ}
use tradingapp.Order.{acknowledged, OrderInfo}
use tradingapp.OrderAccount
use tradingapp.OrderAccount.{open_order, close_order, limit_order}
use tradingapp.PositionTable.{new_table, open_record, sizeof_order_with_pnl}
use tradingapp.TradeAccount.State.{TradeAccount, sizeof_close_order_with_pnl, truncate}
use tradingapp.TradeAccount.Requests.{open_position, close_position, wait_acknowledgement}
use tradingapp.TradeAccount.Changes.{change, after_change}
use tradingapp.TradeAccount.Samples.{
  idle, idle_short, willing, acked, acknowledging, acknowledging-IsQuiet,
}
use tradingapp.TradeInstance.State.{
  trigger_positive, state_init, state_price_change, state_wait, long_side, short_side,
  TradeInstance, send_price,
}
use tradingapp.TradeInstance.Prices.{open_price, close_price, raised_price, lowered_price}
use tradingapp.TradeInstance.PanicClose.{lesser_side}
use tradingapp.TradeInstance.Samples.{quoted, uneven, idle-IsConsistent, idle_short-IsConsistent}
use tradingapp.TradeCase.{CaseBase, new_base, estimation_error}
use tradingapp.TradeCase.RequoteLoop.{requote_loop, open_each, IsSplit, sum, requote_loop-ends}
use tradingapp.TradeCase.Hedge.{HedgeCurrent, hedge_init, hedge_reprice}
use tradingapp.TradeCase.Frames.{Frames}
use tradingapp.TradeCase.Steps.{Answers, selected_cases-Frames}
use tradingapp.TradeCase.Profit.{TradeCase9, case9_init, case9_close, CloseOppositeWithPnl}
use tradingapp.TradeCase.Opening.{TradeCase4}
use tradingapp.TradeCase.SoftClose.{SoftClose, soft_init, soft_from, soft_send, soft_reprice}
use tradingapp.TradeCase.Case10.{TradeCase10, case10_init, case10_send}
use tradingapp.TradeCase.Lost.{hedge_init-stuck}
use tradingapp.TradeCase.Outcomes.{NoGain, soft_close-NoGain, case10_init-closes}
use tradingapp.TradeCase.Sends.{hedge_init-opens, case9_init-closes}

-- The exchange acknowledges every order.
ack_all : List (ℕ × OrderInfo ℤ) → List (ℕ × OrderInfo ℤ)
ack_all [] = []
ack_all ((id, o) ∷ rest) = (id, acked o) ∷ ack_all rest

abbrev acknowledging_all : TradeAccount ℤ → TradeAccount ℤ
acknowledging_all t = record t {
  account = record t.account { objects = ack_all t.account.objects };
}

abbrev base : CaseBase ℤ
base = new_base long_side trigger_positive

-- The loop opens 12 shares in orders of 5, 5 and 2.
requote_loop-ends_example :
    (sizes : List ℕ) × (requote_loop willing acknowledging pos 12 5 0 12 idle
      ≡ open_each willing acknowledging pos 0 sizes idle)
    × IsSplit 5 sizes
    × (sum sizes ≡ 12)
requote_loop-ends_example =
    requote_loop-ends willing acknowledging pos 12 5 0 12 idle (omega arith) (omega arith)

-- The short account holds four shares more than the long one.
abbrev hedged : HedgeCurrent ℤ × TradeInstance ℤ
hedged = elim (hedge_init willing acknowledging (record { base = base; ho_size = 0 }) uneven) [
  | none ↦ (record { base = base; ho_size = 0 }, uneven)
  | some r ↦ r
]

hedge_init-opens_example : hedged.1.long_acc.totalopen ≡ pos 0 +ℤ pos 4
unfolding hedge_init open_position open_order limit_order add32 wait_acknowledgement acknowledged
    lookup update emplace send_price ◌*ℤ◌ ◌-ℤ◌ to_u32
hedge_init-opens_example =
    (hedge_init-opens willing acknowledging acknowledging-IsQuiet long_side uneven idle-IsConsistent
      (omega arith) (record { base = base; ho_size = 0 }) hedged.0 hedged.1 refl refl refl
      (omega arith)).0.0

-- The long account holds four shares that were bought at 90, and the price is 101.
abbrev bought : TradeInstance ℤ
bought = record quoted {
  long_acc = record idle {
    total = pos 4;
    position_table = record {
      is_long = true;
      sign = pos 1;
      open_size = 4;
      pnl = pos 0;
      average = pos 90;
      records = open_record 1 4 (pos 90) (pos 90) (pos 1) ∷ [];
    };
  };
}

abbrev new_case9 : TradeCase9 ℤ
new_case9 = record { base = base; close_size = 0 }

abbrev closing : TradeCase9 ℤ × TradeInstance ℤ
closing = elim (case9_init willing acknowledging new_case9 bought) [
  | none ↦ (new_case9, bought)
  | some r ↦ r
]

case9_init-closes_example : closing.1.long_acc.totalclose ≡ pos 0 +ℤ pos 4
unfolding case9_init case9_close close_position close_order limit_order add32 wait_acknowledgement
    acknowledged lookup update emplace close_price lowered_price sizeof_close_order_with_pnl
    sizeof_order_with_pnl mul32 ◌*ℤ◌ ◌-ℤ◌ to_u32
case9_init-closes_example =
    (case9_init-closes willing acknowledging acknowledging-IsQuiet long_side bought
      idle-IsConsistent (omega arith) new_case9 closing.0 closing.1 refl refl refl).0.1

abbrev new_case4 : TradeCase4 ℤ
new_case4 = record {
  base = base;
  threshold = pos 0;
  threshold_limit = pos 0;
  first_order = 0;
  first_order_size = 0;
  first_order_price = pos 0;
}

selected_cases-Frames_example :
    Answers
      (λ q u. Frames new_case9.base bought q.base u)
      (case9_init willing acknowledging new_case9 bought)
selected_cases-Frames_example =
    (selected_cases-Frames willing acknowledging new_case4 new_case9
      (record { base = base; ho_size = 0 }) bought).2

-- The short account holds 31 shares more than the long one.
abbrev very_uneven : TradeInstance ℤ
very_uneven = record quoted { short_acc = record idle_short { total = pos 31 } }

abbrev moved_up : TradeInstance ℤ
moved_up = record very_uneven { ask_price = pos 105; bid_price = pos 103; ask_size = 0 }

hedge_init-stuck_example :
    (q r : HedgeCurrent ℤ) × (hedge_init willing acknowledging
        (record { base = base; ho_size = 0 })
        very_uneven
      ≡ some (q, very_uneven))
    × (q.base.state ≡ state_price_change)
    × (hedge_reprice willing acknowledging q moved_up ≡ some (r, moved_up))
    × (r.base.state ≡ state_wait)
unfolding send_price open_price raised_price ◌*ℤ◌ ◌-ℤ◌ to_u32
hedge_init-stuck_example =
    hedge_init-stuck willing acknowledging (record { base = base; ho_size = 0 }) very_uneven
      moved_up (omega arith) refl refl refl refl

abbrev new_soft : SoftClose ℤ
new_soft = record {
  state = state_init;
  send_price = pos 0;
  main_order_id = 0;
  close_size = 0;
  side = none;
}

abbrev softly : SoftClose ℤ × TradeInstance ℤ
softly = elim (soft_init willing acknowledging_all new_soft uneven) [
  | none ↦ (new_soft, uneven)
  | some r ↦ r
]

abbrev later : TradeInstance ℤ
later = record softly.1 { ask_price = pos 105; bid_price = pos 103 }

abbrev resoftly : SoftClose ℤ × TradeInstance ℤ
resoftly = elim (soft_reprice willing acknowledging_all long_side softly.0 later) [
  | none ↦ (new_soft, uneven)
  | some r ↦ r
]

soft_close-NoGain_example :
    NoGain long_side (pos 101) uneven softly.1 × NoGain long_side (pos 105) later resoftly.1
unfolding soft_from soft_send soft_reprice lesser_side close_position close_order limit_order add32
    wait_acknowledgement acknowledged lookup update emplace close_price lowered_price change
    after_change OrderAccount.change ack_all new_table ◌*ℤ◌ ◌-ℤ◌ to_u32
soft_close-NoGain_example =
    soft_close-NoGain willing acknowledging_all long_side new_soft softly.0 softly.0 resoftly.0
      uneven later softly.1 resoftly.1 refl refl refl refl

abbrev new_case10 : TradeCase10 ℤ
new_case10 = record {
  base = base;
  close_size = 0;
  original_size = 0;
  error = pos 0;
  account_to_close = some short_side;
}

-- Both accounts hold seven shares, and an order has five.
abbrev level : TradeInstance ℤ
level = record quoted {
  price_estimate = pos 100;
  long_acc = record idle { total = pos 7 };
  short_acc = record idle_short { total = pos 7 };
}

abbrev tenth : TradeCase10 ℤ × TradeInstance ℤ
tenth = elim (case10_init willing acknowledging new_case10 level) [
  | none ↦ (new_case10, level)
  | some r ↦ r
]

case10_init-closes_example : tenth.0.close_size ≡ min 5 7
unfolding case10_send close_position close_order limit_order add32 wait_acknowledgement acknowledged
    lookup update emplace truncate estimation_error new_table div_ℤ quot ◌*ℤ◌ ◌-ℤ◌ ◌+ℤ◌ to_u32
case10_init-closes_example =
    (case10_init-closes willing acknowledging new_case10 tenth.0 short_side level tenth.1
      acknowledging-IsQuiet idle_short-IsConsistent (omega arith) refl refl refl).3

-- The closing order went out at 95, and the trade price is 96 now.
abbrev new_close : CloseOppositeWithPnl ℤ
new_close = record {
  base = base;
  close_size = 4;
  init_size = 4;
  close_price = pos 95;
  close_id = 1;
}
