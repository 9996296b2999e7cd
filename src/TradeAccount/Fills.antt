-- ===== src/TradeAccount/Fills.antt =====
-- LongTradeAccount.cpp, ShortTradeAccount.cpp and AbstractTradeAccount::on{Open,Close}Fill: the fills
-- of a trade account. The two accounts of a symbol see one another, so a fill returns both.
use tradingapp.Prelude.{ℕ, true, not, ◌&&◌, none, some, lookup, if◌then◌else◌}
use tradingapp.Prelude.Int.{pos, ◌+ℤ◌, ◌-ℤ◌, quot, ltb_ℤ, leb_ℤ, eqb_ℤ}
use tradingapp.Prelude.Word.{add32}
use tradingapp.Double.{Double, zero_point}
use tradingapp.PositionTable.{record_open_position, record_close_position}
use tradingapp.OrderAccount.{put}
use tradingapp.TradeAccount.State.{
  TradeAccount, is_long_account, get_position, calculate_spread, dec_tranch,
}

module _ {F : Type 0} where
  -- `order_info->fill_size += size`
  unfoldable pub note_fill : ℕ → ℕ → TradeAccount F → TradeAccount F
  note_fill id size t = elim (lookup id t.account.objects) [
    | none ↦ t
    | some o ↦ record t {
      account = put t.account id (record o { fill_size = add32 o.fill_size size });
    }
  ]

module _ {F : Type 0} ⦃d : Double F⦄ where
  open d use {of_int, add, sub, mul, div}

  -- `AbstractTradeAccount::onOpenFill`
  abbrev pub base_open_fill : ℕ → F → ℕ → TradeAccount F → TradeAccount F
  base_open_fill id price size t = record t {
    position_table = record_open_position t.position_table id size price;
    last_open_price = price;
  }

  -- `AbstractTradeAccount::onCloseFill`
  abbrev pub base_close_fill : ℕ → F → ℕ → TradeAccount F → TradeAccount F
  base_close_fill id price size t = record t {
    position_table = record_close_position t.position_table id size price;
    last_close_price = price;
  }

  abbrev opened_average : F → ℕ → TradeAccount F → F
  opened_average price size t =
      if eqb_ℤ t.total (pos 0)
      then zero_point
      else add t.average (div (mul (sub price t.average) (of_int (pos size))) (of_int t.total))

  abbrev closed_average : F → ℕ → TradeAccount F → F
  closed_average price size t =
      if eqb_ℤ t.total (pos 0)
      then zero_point
      else add t.average (div (mul (sub t.average price) (of_int (pos size))) (of_int t.total))

  -- Only a short account notes the price in force.
  abbrev note_pif : F → TradeAccount F → TradeAccount F → TradeAccount F
  note_pif price other t =
      if not (is_long_account t) && leb_ℤ (get_position other) (get_position t)
      then record t { pif = price }
      else t

  unfoldable pub on_open_fill :
      ℕ → F → ℕ → TradeAccount F → TradeAccount F → TradeAccount F × TradeAccount F
  unfolding note_fill calculate_spread
  on_open_fill id price size t other =
      let (spread, other') = calculate_spread price size true (note_fill id size t) other in
      let opened = record spread { total = spread.total +ℤ pos size; last_open_price = price } in
      let noted = note_pif price other' opened in
      let averaged = record noted { average = opened_average price size noted } in
      (base_open_fill id price size averaged, other')

  -- The quotients by `max_pos` round towards zero; with `max_pos` 0 the program is undefined.
  unfoldable pub on_close_fill : ℕ → F → ℕ → TradeAccount F → TradeAccount F
  unfolding note_fill
  on_close_fill id price size t =
      let noted = note_fill id size t in
      let before_close = quot noted.total noted.max_pos in
      let closed = record noted { total = noted.total -ℤ pos size } in
      let after_close = quot closed.total closed.max_pos in
      let counted = if ltb_ℤ after_close before_close then dec_tranch closed else closed in
      let averaged = record counted { average = closed_average price size counted } in
      base_close_fill id price size averaged
