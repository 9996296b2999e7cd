-- ===== src/TradeAccount/Samples.antt =====
-- Accounts that the tests of several modules start from.
use tradingapp.Prelude.{
  ℕ, ◌≡◌, refl, true, false, none, some, [], arith, inl, inr, Option-cases, Bool-cases, lookup,
  lookup-update, ◌==◌,
}
use tradingapp.Prelude.Int.{ℤ, pos}
use tradingapp.Double.Units.{int_double}
use tradingapp.PositionTable.{new_table}
use tradingapp.Order.{OrderInfo, order_account_long, order_account_short, stage_acknowledged}
use tradingapp.OrderAccount.{Gateway}
use tradingapp.TradeAccount.State.{TradeAccount}
use tradingapp.TradeAccount.Changes.{put_order}
use tradingapp.TradeAccount.Waiting.{IsQuiet, IsSameOrder}

-- A long account without orders or positions, whose lots are single shares.
abbrev pub idle : TradeAccount ℤ
idle = record {
  account = record {
    account_type = order_account_long;
    request_id_generator = 0;
    order_hash = [];
    objects = [];
  };
  divisor = 1;
  position_table = new_table true;
  orders = [];
  pending_orders = [];
  total = pos 0;
  average = pos 0;
  spread = pos 0;
  last_open_price = pos 0;
  last_close_price = pos 0;
  totalopen = pos 0;
  totalclose = pos 0;
  total_executed = pos 0;
  mmf_round = 0;
  mmf_mpv = pos 0;
  pif = pos 0;
  rif = 0;
  opened_for_close = false;
  maximum_order_size = 5000;
  max_pos = 10;
  tranch_value = 3;
  tranch_counter = 0;
}

abbrev pub idle_short : TradeAccount ℤ
idle_short = record idle {
  account = record {
    account_type = order_account_short;
    request_id_generator = 0;
    order_hash = [];
    objects = [];
  };
  position_table = new_table false;
}

abbrev pub willing : Gateway ℤ
willing = record {
  set_limit_order = λ _ _ _. true;
  post_order = λ _ _. true;
  cancel_order = λ _. true;
  change_order = λ _ _ _. true;
  order_status = λ _. true;
}

abbrev pub acked : OrderInfo ℤ → OrderInfo ℤ
acked o = record o { stage = stage_acknowledged; is_acknowledged = true }

-- The exchange acknowledges order 1.
abbrev pub acknowledging : TradeAccount ℤ → TradeAccount ℤ
acknowledging t = elim (lookup 1 t.account.objects) [ none ↦ t | some o ↦ put_order 1 (acked o) t ]

acknowledging-IsSameOrder :
    (t : TradeAccount ℤ) (id : ℕ) (o : OrderInfo ℤ)
    → lookup id t.account.objects ≡ some o
    → (p : OrderInfo ℤ) × (lookup id (acknowledging t).account.objects ≡ some p) × IsSameOrder o p
acknowledging-IsSameOrder t id o e =
    let same : IsSameOrder o o = record {
      same_account = refl;
      same_type = refl;
      same_size = refl;
    } in
    elim (Option-cases (lookup 1 t.account.objects)) [
      | inl missing ↦ (o, ground arith, same)
      | inr (p, found) ↦
          let updated = lookup-update 1 id (acked p) t.account.objects in
          elim (Bool-cases (1 == id)) [
            | inl this ↦
                let one : p ≡ o = ground arith in
                (
                  acked o,
                  rw (← one) (ground (arith, updated)),
                  record { same_account = refl; same_type = refl; same_size = refl },
                )
            | inr other ↦ (o, ground (arith, updated), same)
          ]
    ]

pub acknowledging-IsQuiet : IsQuiet acknowledging
acknowledging-IsQuiet = record {
  keeps_open = λ t. ground arith;
  keeps_close = λ t. ground arith;
  keeps_order = acknowledging-IsSameOrder;
}
