-- ===== src/PositionTable/Tests.antt =====
-- Runs of the position table over whole price units, and the theorems at concrete tables.
use tradingapp.Prelude.{ℕ, ◌<◌, ◌≤◌, ◌≡◌, refl, true, false, List, [], ◌∷◌, arith}
use tradingapp.Prelude.Int.{ℤ, pos, negsuc, ◌+ℤ◌, ◌-ℤ◌, ◌*ℤ◌, quot}
use tradingapp.Prelude.Word.{add32, sub32}
use tradingapp.Double.Units.{int_double, int_double-IsOrdered}
use tradingapp.Double.Fractions.{Fraction, fraction_double, fraction_double-HasExactCeil, frac}
use tradingapp.PositionTable.{
  PositionRecord, PositionRecordTable, open_record, new_table, record_close_position,
  sizeof_order_with_pnl, repackaging,
}
use tradingapp.PositionTable.Sizes.{open_shares, closed_shares}
use tradingapp.PositionTable.Ledger.{IsBalanced}
use tradingapp.PositionTable.Profit.{sizeof_order_with_pnl-picked}
use tradingapp.PositionTable.Closing.{record_close_position-long}
use tradingapp.PositionTable.Overrun.{record_close_position-short_overrun}
use tradingapp.PositionTable.History.{
  Trade, opened, closed, ended, count_shares, trades, trades-count_shares,
}
use tradingapp.PositionTable.Repackaging.{repackaging-shares}

abbrev lot : ℕ → ℕ → ℕ → ℤ → PositionRecord ℤ
lot id size price sign = open_record id size (pos price) (pos 95) sign

-- Five shares at 90 and five at 100, in the order of each account.
abbrev long_table : PositionRecordTable ℤ
long_table = record {
  is_long = true;
  sign = pos 1;
  open_size = 10;
  pnl = pos 0;
  average = pos 95;
  records = lot 1 5 90 (pos 1) ∷ lot 2 5 100 (pos 1) ∷ [];
}

abbrev short_table : PositionRecordTable ℤ
short_table = record {
  is_long = false;
  sign = negsuc 0;
  open_size = 10;
  pnl = pos 0;
  average = pos 95;
  records = lot 1 5 100 (negsuc 0) ∷ lot 2 5 90 (negsuc 0) ∷ [];
}

long_table-IsBalanced : IsBalanced long_table
unfolding ◌-ℤ◌ ◌*ℤ◌
long_table-IsBalanced = record {
  signed = refl;
  counted = refl;
  word = omega arith;
  sized = omega arith;
  sorted = ((refl, tt), (tt, tt));
}

short_table-IsBalanced : IsBalanced short_table
unfolding ◌-ℤ◌ ◌*ℤ◌
short_table-IsBalanced = record {
  signed = refl;
  counted = refl;
  word = omega arith;
  sized = omega arith;
  sorted = ((refl, tt), (tt, tt));
}

-- A fill of 7 at 95: the 5 in profit, and 2 of the others.
long_close_run : open_shares (record_close_position long_table 9 7 (pos 95)).records ≡ 3
unfolding record_close_position ◌+ℤ◌ ◌-ℤ◌ ◌*ℤ◌ quot sub32
long_close_run = refl

-- A fill of all 10 at 95 leaves 5 shares open in the records of the short account.
short_close_run : open_shares (record_close_position short_table 9 10 (pos 95)).records ≡ 5
unfolding record_close_position ◌+ℤ◌ ◌-ℤ◌ ◌*ℤ◌ quot sub32
short_close_run = refl

sizeof_order_with_pnl-picked_example : (sizeof_order_with_pnl long_table (pos 95)).0 ≤ 10
sizeof_order_with_pnl-picked_example =
    (sizeof_order_with_pnl-picked (pos 95) long_table long_table-IsBalanced).1

record_close_position-long_example :
    closed_shares (record_close_position long_table 9 7 (pos 95)).records ≡ 7
record_close_position-long_example =
    (record_close_position-long int_double-IsOrdered long_table long_table-IsBalanced
      (refl, (refl, tt)) 9 7 (pos 95) (omega arith) refl).2

sizeof_short : 3 ≤ (sizeof_order_with_pnl short_table (pos 95)).0
unfolding sizeof_order_with_pnl ◌-ℤ◌ ◌*ℤ◌ add32
sizeof_short = omega arith

record_close_position-short_overrun_example :
    (record_close_position short_table 9 10 (pos 95)).open_size
    < open_shares (record_close_position short_table 9 10 (pos 95)).records
record_close_position-short_overrun_example =
    record_close_position-short_overrun short_table short_table-IsBalanced 9 10 (pos 95)
      (lot 1 5 100 (negsuc 0)) (lot 2 5 90 (negsuc 0) ∷ []) refl refl (refl, (refl, tt))
      (omega arith) refl (omega arith) (omega arith)

abbrev history : List (Trade ℤ)
history =
    opened 1 5 (pos 90)
    ∷ opened 2 5 (pos 100)
    ∷ closed 3 7 (pos 95)
    ∷ opened 4 3 (pos 92)
    ∷ ended
    ∷ closed 5 2 (pos 91)
    ∷ []

trades-count_shares_example : (trades history (new_table true)).open_size ≡ 4
unfolding count_shares
trades-count_shares_example = (trades-count_shares int_double-IsOrdered history 4 false refl).2

abbrev fractional : PositionRecordTable Fraction
fractional = record {
  is_long = true;
  sign = pos 1;
  open_size = 10;
  pnl = frac (pos 0) 1;
  average = frac (pos 191) 2;
  records = [];
}

repackaging-shares_example :
    open_shares (repackaging fractional 4 (frac (pos 1) 100) (frac (pos 0) 1)).records ≡ 10
repackaging-shares_example =
    (repackaging-shares fraction_double-HasExactCeil fractional 4 (frac (pos 1) 100)
      (frac (pos 0) 1) (omega arith) (omega arith) (omega arith)).0
