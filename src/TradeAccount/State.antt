-- ===== src/TradeAccount/State.antt =====
-- The state of a trade account and its plain operations. `int64_t` counts are integers, whose
-- overflow C++ does not define. An object of an order is kept in the order account, and `orders` and
-- `order_hash` hold its number.
use tradingapp.Prelude.{ℕ, Bool, true, false, ◌&&◌, not, List, if◌then◌else◌, min}
use tradingapp.Prelude.Int.{ℤ, pos, ◌+ℤ◌, ◌-ℤ◌, ◌*ℤ◌, ltb_ℤ, leb_ℤ, eqb_ℤ, to_u32}
use tradingapp.Prelude.Word.{add32, sub32, mul32}
use tradingapp.Double.{Double, zero_point}
use tradingapp.PositionTable.{
  PositionRecordTable, repackaging, set_pnl, delete_complete_position, sizeof_order_with_pnl,
}
use tradingapp.Order.{
  OrderInfo, OrderAccountType, order_account_long, order_account_short, BuySell, bs_none, bs_buy,
  bs_sell, bs_sell_short,
}
use tradingapp.OrderAccount.{OrderAccount}

pub record TradeAccount (F : Type 0) : Type 0 where
  pub account : OrderAccount F
  pub divisor : ℕ
  pub position_table : PositionRecordTable F
  pub orders : List ℕ
  pub pending_orders : List (OrderInfo F)
  pub total : ℤ
  pub average : F
  pub spread : F
  pub last_open_price : F
  pub last_close_price : F
  pub totalopen : ℤ
  pub totalclose : ℤ
  pub total_executed : ℤ
  pub mmf_round : ℕ
  pub mmf_mpv : F
  pub pif : F
  pub rif : ℕ
  pub opened_for_close : Bool
  pub maximum_order_size : ℕ
  pub max_pos : ℕ
  pub tranch_value : ℕ
  pub tranch_counter : ℕ

abbrev pub is_long_type : OrderAccountType → Bool
is_long_type order_account_long = true
is_long_type order_account_short = false

abbrev pub abs_ℤ : ℤ → ℤ
abs_ℤ n = if ltb_ℤ n (pos 0) then pos 0 -ℤ n else n

module _ {F : Type 0} where
  abbrev pub is_long_account : TradeAccount F → Bool
  is_long_account t = is_long_type t.account.account_type

  abbrev pub get_position : TradeAccount F → ℤ
  get_position t = t.total *ℤ pos t.divisor

  -- The table's average, whereas `setAverage` sets the account's own.
  abbrev pub get_average : TradeAccount F → F
  get_average t = t.position_table.average

  abbrev pub get_total_live_order_count : TradeAccount F → ℤ
  get_total_live_order_count t = t.totalopen +ℤ t.totalclose

  pub set_maximum_order_limit : ℕ → TradeAccount F → TradeAccount F
  set_maximum_order_limit size t = record t { maximum_order_size = size }

  -- The copy that goes to the database is not modelled.
  pub set_price_in_force : F → TradeAccount F → TradeAccount F
  set_price_in_force pif t = record t { pif = pif }

  pub set_price_in_force_as_average : TradeAccount F → TradeAccount F
  set_price_in_force_as_average t = record t { pif = t.average }

  pub set_round_in_force : ℕ → TradeAccount F → TradeAccount F
  set_round_in_force rif t = record t { rif = rif }

  pub set_total_executed : ℤ → TradeAccount F → TradeAccount F
  set_total_executed n t = record t { total_executed = n }

  pub set_position : ℤ → TradeAccount F → TradeAccount F
  set_position n t = record t { total = n }

  pub set_mmf : ℕ → F → TradeAccount F → TradeAccount F
  set_mmf mmf mpv t = record t { mmf_round = mmf; mmf_mpv = mpv }

  pub set_opened_for_close : Bool → TradeAccount F → TradeAccount F
  set_opened_for_close b t = record t { opened_for_close = b }

  abbrev pub set_spread : F → TradeAccount F → TradeAccount F
  set_spread spread t = record t { spread = spread }

  pub set_max_position : ℕ → TradeAccount F → TradeAccount F
  set_max_position n t = record t { max_pos = n }

  pub set_tranch_value : ℕ → TradeAccount F → TradeAccount F
  set_tranch_value n t = record t { tranch_value = n }

  abbrev pub inc_tranch : TradeAccount F → TradeAccount F
  inc_tranch t = record t { tranch_counter = add32 t.tranch_counter 1 }

  abbrev pub dec_tranch : TradeAccount F → TradeAccount F
  dec_tranch t = record t { tranch_counter = sub32 t.tranch_counter 1 }

  pub set_average : F → TradeAccount F → TradeAccount F
  set_average average t = record t { average = average }

  -- The live shares that an order of a kind of account and a side counts among: those that open, or
  -- those that close. `release` takes shares away, `engage` adds them.
  unfoldable pub release : OrderAccountType → BuySell → ℕ → TradeAccount F → TradeAccount F
  release order_account_long bs_sell_short n t = record t { totalclose = t.totalclose -ℤ pos n }
  release order_account_long bs_sell n t = record t { totalclose = t.totalclose -ℤ pos n }
  release order_account_long bs_buy n t = record t { totalopen = t.totalopen -ℤ pos n }
  release order_account_short bs_sell_short n t = record t { totalopen = t.totalopen -ℤ pos n }
  release order_account_short bs_sell n t = record t { totalopen = t.totalopen -ℤ pos n }
  release order_account_short bs_buy n t = record t { totalclose = t.totalclose -ℤ pos n }
  release _ bs_none n t = t

module _ {F : Type 0} ⦃d : Double F⦄ where
  open d use {of_int, add, sub, mul, div, lt, le, fabs, trunc_i32, trunc_u32}

  unfoldable pub check_pnl : F → TradeAccount F → Bool
  check_pnl close_price t =
      if is_long_account t then lt t.average close_price else lt close_price t.average

  -- `truncate(x, 2)` and `dceil(x, 2)`; the scale 100 is `pow(10, 2)`.
  unfoldable pub truncate : F → F
  truncate x = div (of_int (trunc_i32 (mul x (of_int (pos 100))))) (of_int (pos 100))

  unfoldable pub dceil : F → F
  dceil x =
      let scaled = mul x (of_int (pos 100)) in
      let n = trunc_u32 scaled in
      let up = if lt zero_point (sub scaled (of_int (pos n))) then add32 n 1 else n in
      div (of_int (pos up)) (of_int (pos 100))

  pub mmf_price : TradeAccount F → F
  unfolding truncate dceil
  mmf_price t =
      if is_long_account t
      then add (truncate t.average) t.mmf_mpv
      else sub (dceil t.average) t.mmf_mpv

  -- The two accounts after `calculateSpread`.
  unfoldable pub calculate_spread :
      F → ℕ → Bool → TradeAccount F → TradeAccount F → TradeAccount F × TradeAccount F
  calculate_spread fill_price fill_size open_close t other =
      let disparity = abs_ℤ (t.total -ℤ other.total) in
      let equality = other.total in
      let step = div (mul (sub fill_price t.average) (of_int disparity)) (of_int equality) in
      let apart = λ (average_sp : F). fabs (sub average_sp other.position_table.average) in
      if ltb_ℤ t.total equality && leb_ℤ equality (t.total +ℤ pos fill_size) && open_close
      then (
        set_spread (apart (add t.average step)) t,
        set_spread (apart (add t.average step)) other,
      )
      else if ltb_ℤ equality t.total && leb_ℤ (t.total -ℤ pos fill_size) equality && not open_close
      then (
        set_spread (apart (sub t.average step)) t,
        set_spread (apart (sub t.average step)) other,
      )
      else (t, other)

  unfoldable pub sizeof_close_order_with_pnl : F → TradeAccount F → ℕ × F
  sizeof_close_order_with_pnl send_price t =
      let (size, pnl) = sizeof_order_with_pnl t.position_table send_price in
      (min (mul32 size t.divisor) (to_u32 (get_position t)), pnl)

  pub get_open_pnl : F → TradeAccount F → F
  get_open_pnl reference_price t =
      mul
        (mul (sub reference_price t.position_table.average)
          (of_int (pos t.position_table.open_size)))
        (of_int (if is_long_account t then pos 1 else pos 0 -ℤ pos 1))

  pub repackage_position_table : ℕ → F → F → TradeAccount F → TradeAccount F
  repackage_position_table base_qty mpv adjustment t = record t {
    position_table = repackaging t.position_table base_qty mpv adjustment;
  }

  pub reset_pnl : TradeAccount F → TradeAccount F
  reset_pnl t = record t { position_table = set_pnl t.position_table zero_point }

  unfoldable pub delete_complete_positions : TradeAccount F → TradeAccount F
  delete_complete_positions t = record t {
    position_table = delete_complete_position t.position_table;
  }

  -- The product `max_pos*tranch_counter` wraps at 32 bits before it is taken from the position.
  unfoldable pub hedged_mode_condition : F → F → TradeAccount F → Bool
  hedged_mode_condition bid ask t =
      let price_cond =
        if is_long_account t then lt bid t.last_open_price else lt t.last_open_price ask in
      eqb_ℤ (get_position t -ℤ pos (mul32 t.max_pos t.tranch_counter)) (pos t.max_pos) && price_cond
