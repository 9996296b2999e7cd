-- ===== src/TradeAccount/Tests.antt =====
-- Runs of a trade account over whole price units, and the theorems at concrete accounts.
use tradingapp.Prelude.{
  ℕ, ◌-◌, ◌^◌, ◌≡◌, refl, Bool, true, false, Option, none, some, [], ◌∷◌, arith, inl, inr, lookup,
  update, emplace,
}
use tradingapp.Prelude.Int.{ℤ, pos, ◌+ℤ◌, ◌-ℤ◌, ◌*ℤ◌}
use tradingapp.Prelude.Word.{add32}
use tradingapp.Double.Units.{int_double, int_double-IsOrdered}
use tradingapp.PositionTable.{new_table, open_record}
use tradingapp.PositionTable.Ledger.{new_table-IsBalanced}
use tradingapp.Order.{
  OrderInfo, new_request, order_account_long, bs_buy, cancel_done, cond_canceled, no_function,
  acknowledged, can_cancel,
}
use tradingapp.OrderAccount.{Gateway, OrderAccount, limit_order, open_order, close_order}
use tradingapp.OrderAccount
use tradingapp.OrderAccount.Ids.{IsConsistent}
use tradingapp.TradeAccount.State.{TradeAccount, release}
use tradingapp.TradeAccount.Samples.{idle, willing, acked, acknowledging, acknowledging-IsQuiet}
use tradingapp.TradeAccount.Requests.{open_position, close_position, wait_acknowledgement}
use tradingapp.TradeAccount.Changes.{put_order, cancel, cancel_all, wait_cancel_acknowledgement}
use tradingapp.TradeAccount.Fills.{on_open_fill, on_close_fill}
use tradingapp.TradeAccount.Pending.{send_pending_orders, open_pending}
use tradingapp.TradeAccount.Positions.{
  IsReconciled, on_open_fill-IsReconciled, on_close_fill-IsReconciled,
}
use tradingapp.TradeAccount.Tranches.{on_close_fill-tranch_wraps}
use tradingapp.TradeAccount.Refusals.{requests-refused}
use tradingapp.TradeAccount.LiveCount.{open_position-OpensLive, close_position-ClosesLive}
use tradingapp.TradeAccount.Queue.{send_pending_orders-blocked}
use tradingapp.TradeAccount.Cancelling.{cancel-leaves_filled, cancel_all-forgets}

idle-IsConsistent : IsConsistent idle.account
unfolding lookup
idle-IsConsistent = record {
  bounded = λ id h. ground arith;
  object_bounded = λ id o h. ground arith;
  numbered = λ id o h. ground arith;
  linked = λ id h. ground arith;
}

idle-IsReconciled : IsReconciled idle
unfolding new_table
idle-IsReconciled = record { balanced = new_table-IsBalanced true; agreed = refl }

on_open_fill-IsReconciled_example : IsReconciled (on_open_fill 1 (pos 90) 5 idle idle).0
unfolding new_table
on_open_fill-IsReconciled_example =
    (on_open_fill-IsReconciled int_double-IsOrdered 1 5 (pos 90) idle idle idle-IsReconciled
      idle-IsReconciled (omega arith)).0

requests-refused_example :
    open_position willing acknowledging (pos 90) 31 false idle ≡ some (idle, 0)
requests-refused_example =
    (requests-refused willing acknowledging (pos 90) 31 idle (inr (omega arith))).0 false

-- An account that holds five shares bought at 90 and five bought at 100.
abbrev holding : TradeAccount ℤ
holding = record idle {
  position_table = record {
    is_long = true;
    sign = pos 1;
    open_size = 10;
    pnl = pos 0;
    average = pos 95;
    records =
        open_record 1 5 (pos 90) (pos 95) (pos 1) ∷ open_record 2 5 (pos 100) (pos 95) (pos 1) ∷ [];
  };
  total = pos 10;
}

holding-IsReconciled : IsReconciled holding
unfolding ◌-ℤ◌ ◌*ℤ◌
holding-IsReconciled = record {
  balanced = record {
    signed = refl;
    counted = refl;
    word = omega arith;
    sized = omega arith;
    sorted = ((refl, tt), (tt, tt));
  };
  agreed = refl;
}

on_close_fill-IsReconciled_example : IsReconciled (on_close_fill 3 (pos 95) 7 holding)
on_close_fill-IsReconciled_example =
    (on_close_fill-IsReconciled int_double-IsOrdered 3 7 (pos 95) holding holding-IsReconciled
      (refl, (refl, tt)) (omega arith, inl refl)).0

on_close_fill-tranch_wraps_example :
    let u = (on_open_fill 1 (pos 90) 10 idle idle).0 in
    (on_close_fill 2 (pos 95) 1 u).tranch_counter ≡ 2 ^ 32 - 1
on_close_fill-tranch_wraps_example =
    (on_close_fill-tranch_wraps 1 2 1 (pos 90) (pos 95) idle idle refl refl (omega arith)
      (omega arith)).1

-- The account after a request that succeeded, by running it.
abbrev answer : Option (TradeAccount ℤ × ℕ) → TradeAccount ℤ × ℕ
answer none = (idle, 0)
answer (some r) = r

abbrev opened : TradeAccount ℤ
opened = (answer (open_position willing acknowledging (pos 90) 4 false idle)).0

abbrev closing : TradeAccount ℤ
closing = (answer (close_position willing acknowledging (pos 95) 4 false idle)).0

open_position-OpensLive_example : opened.totalopen ≡ pos 0 +ℤ pos 4
unfolding open_position open_order limit_order add32 wait_acknowledgement acknowledged lookup update
    emplace
open_position-OpensLive_example =
    ((open_position-OpensLive willing acknowledging acknowledging-IsQuiet idle idle-IsConsistent
        (omega arith) (pos 90) 4 opened 1 (omega arith)).0
      false refl).0

close_position-ClosesLive_example : closing.totalclose ≡ pos 0 +ℤ pos 4
unfolding close_position close_order limit_order add32 wait_acknowledgement acknowledged lookup
    update emplace
close_position-ClosesLive_example =
    ((close_position-ClosesLive willing acknowledging acknowledging-IsQuiet idle idle-IsConsistent
        (omega arith) (pos 95) 4 closing 1 (omega arith)).0
      false refl).1

acknowledging-pending : (t : TradeAccount ℤ) → (acknowledging t).pending_orders ≡ t.pending_orders
acknowledging-pending t = ground arith

abbrev large : OrderInfo ℤ
large = new_request 31 (pos 90)

abbrev blocked : TradeAccount ℤ
blocked = record idle { pending_orders = large ∷ new_request 4 (pos 90) ∷ [] }

send_pending_orders-blocked_example :
    send_pending_orders willing acknowledging blocked ≡ some blocked
send_pending_orders-blocked_example =
    send_pending_orders-blocked willing acknowledging blocked large (new_request 4 (pos 90) ∷ [])
      refl (inl refl) (inr (omega arith))

abbrev first_account : Option (TradeAccount ℤ) → TradeAccount ℤ
first_account none = idle
first_account (some t) = t

abbrev queued : TradeAccount ℤ
queued = open_pending (pos 90) 4 no_function idle

abbrev sent : TradeAccount ℤ
sent = first_account (send_pending_orders willing acknowledging queued)

-- One share of order 1, of four, is open when the exchange cancels it.
abbrev cut : OrderInfo ℤ → OrderInfo ℤ
cut o = record o {
  cancel_stage = cancel_done;
  order = record { condition = cond_canceled; open_size = 1; reference_number = 7 };
}

abbrev cancelling : TradeAccount ℤ → TradeAccount ℤ
cancelling t = elim (lookup 1 t.account.objects) [ none ↦ t | some o ↦ put_order 1 (cut o) t ]

abbrev resting : OrderInfo ℤ
resting = record (acked (new_request 4 (pos 90))) { type = bs_buy; request_id = 1 }

abbrev one_live : TradeAccount ℤ
one_live = record idle {
  account = record {
    account_type = order_account_long;
    request_id_generator = 1;
    order_hash = 1 ∷ [];
    objects = (1, resting) ∷ [];
  };
  orders = 1 ∷ [];
  totalopen = pos 4;
}

abbrev pair_account : Option (TradeAccount ℤ × Bool) → TradeAccount ℤ
pair_account none = idle
pair_account (some (t, b)) = t

abbrev cancelled : TradeAccount ℤ
cancelled = pair_account (cancel willing cancelling 1 one_live)

cancel-leaves_filled_example : cancelled.orders ≡ 1 ∷ []
unfolding cancel OrderAccount.cancel can_cancel wait_cancel_acknowledgement lookup update release
cancel-leaves_filled_example =
    (cancel-leaves_filled willing cancelling (λ t. ground arith) 1 one_live cancelled refl).0

abbrev all_cancelled : TradeAccount ℤ
all_cancelled =
    first_account (cancel_all willing cancelling (record one_live { pending_orders = large ∷ [] }))

cancel_all-forgets_example : all_cancelled.pending_orders ≡ []
unfolding cancel_all OrderAccount.cancel can_cancel wait_cancel_acknowledgement lookup update
    release
cancel_all-forgets_example =
    (cancel_all-forgets willing cancelling (λ t. ground arith)
      (record one_live { pending_orders = large ∷ [] }) all_cancelled refl).0
