-- ===== src/OrderAccount/Tests.antt =====
-- Runs of an order account over whole price units, and the theorems at concrete accounts.
use tradingapp.Prelude.{
  ℕ, List, [], ◌∷◌, none, ◌≡◌, refl, true, false, none, some, [], ◌∷◌, arith, lookup,
}
use tradingapp.Prelude.Int.{ℤ, pos}
use tradingapp.Prelude.Word.{add32}
use tradingapp.Order.{
  OrderInfo, ExecutionOrder, new_request, order_account_long, bs_buy, cond_done, cond_new,
}
use tradingapp.OrderAccount.{Gateway, OrderAccount, limit_order, open_order, change, find, on_order}
use tradingapp.OrderAccount.Ids.{IsConsistent}
use tradingapp.OrderAccount.Sending.{open_order-IsSent}
use tradingapp.OrderAccount.Replacing.{change-Replaces}
use tradingapp.OrderAccount.Messages.{
  is_terminal, on_order-Keeps, on_order_over, Message, order_message, cancel_message, fill_message,
  receive, receives,
}

abbrev willing : Gateway ℤ
willing = record {
  set_limit_order = λ _ _ _. true;
  post_order = λ _ _. true;
  cancel_order = λ _. true;
  change_order = λ _ _ _. true;
  order_status = λ _. true;
}

abbrev unposted : Gateway ℤ
unposted = record willing { post_order = λ _ _. false }

abbrev request : OrderInfo ℤ
request = record (new_request 4 (pos 100)) { on_acknowledgement = true; on_order_done = true }

abbrev resting : OrderInfo ℤ
resting = record request { request_id = 1; type = bs_buy }

-- One order, number 1, is in the map.
abbrev account : OrderAccount ℤ
account = record {
  account_type = order_account_long;
  request_id_generator = 1;
  order_hash = 1 ∷ [];
  objects = (1, resting) ∷ [];
}

account-IsConsistent : IsConsistent account
unfolding lookup
account-IsConsistent = record {
  bounded = λ id h. ground arith;
  object_bounded = λ id o h. ground arith;
  numbered = λ id o h. ground arith;
  linked = λ id h. (resting, ground arith);
}

abbrev message : ExecutionOrder
message = record { condition = cond_done; open_size = 0; reference_number = 7 }

open_order-IsSent_example :
    find 2 (open_order willing request account).0
    ≡ some (record request { type = bs_buy; request_id = 2 })
unfolding open_order limit_order add32
open_order-IsSent_example =
    (open_order-IsSent willing request account account-IsConsistent (omega arith) _ 2 refl).3

change-Replaces_example :
    IsConsistent (change willing resting (record request { size = 6 }) account).0
change-Replaces_example =
    (change-Replaces willing resting (record request { size = 6 }) account account-IsConsistent
      (omega arith)).0

found : find 1 account ≡ some resting
unfolding find lookup
found = refl

on_order-Keeps_example : find 1 (on_order 1 message account).0 ≡ none
unfolding is_terminal
on_order-Keeps_example = (on_order-Keeps account 1 message resting found).0 refl

-- After the end of order 1 come a message of a number that is not known and a fill of the order.
abbrev between : List (ℕ × Message ℤ)
between = (2, cancel_message) ∷ (1, fill_message (pos 100) 4 0) ∷ []

on_order_over_example :
    let b = receives between (on_order 1 message account).0 in
    (find 1 b ≡ none)
    × (receive 1 (order_message (record message { condition = cond_new })) b ≡ (b, none))
unfolding is_terminal
on_order_over_example =
    on_order_over account 1 message resting between
      (order_message (record message { condition = cond_new })) found refl
