-- ===== src/PositionTable.antt =====
-- trade/PositionRecordTable.h: the records of the fills of one account, and the table that keeps
-- them in the order of their prices. `std::list` is a list, front first.
pub mod Sizes
pub mod Passes
pub mod Order
pub mod Ledger
pub mod Profit
pub mod Overrun
pub mod History
pub mod Repackaging
mod Tests
pub mod Closing
use tradingapp.Prelude.{
  ℕ, zero, suc, ◌+◌, ◌-◌, ◌≡◌, Bool, true, false, not, ◌&&◌, List, [], ◌∷◌, ◌++◌, reverse, ltb, leb,
  ◌==◌, if◌then◌else◌,
}
use tradingapp.Prelude.Int.{ℤ, pos, negsuc}
use tradingapp.Prelude.Word.{add32, sub32}
use tradingapp.Double.{Double, zero_point}

pub record PositionRecord (F : Type 0) : Type 0 where
  pub open_order_id : ℕ
  pub open_size : ℕ
  pub open_price : F
  pub average_at_open : F
  pub close_order_id : ℕ
  pub close_size : ℕ
  pub close_price : F
  pub average_at_close : F
  pub is_complete : Bool
  pub pnl : F
  pub sign : ℤ

pub record PositionRecordTable (F : Type 0) : Type 0 where
  pub is_long : Bool
  pub sign : ℤ
  pub open_size : ℕ
  pub pnl : F
  pub average : F
  pub records : List (PositionRecord F)

-- The state of a closing loop: the records, the shares still to close, and the profit.
abbrev pub Pass : Type 0 → Type 0
Pass F = List (PositionRecord F) × ℕ × F

module _ {F : Type 0} where
  abbrev pub keep : PositionRecord F → Pass F → Pass F
  keep r (rs, left, pnl) = (r ∷ rs, left, pnl)

  -- A long account is walked from the back.
  abbrev pub oriented : Bool → List (PositionRecord F) → List (PositionRecord F)
  oriented is_long rs = if is_long then reverse rs else rs

  pub drop_complete : List (PositionRecord F) → List (PositionRecord F)
  drop_complete [] = []
  drop_complete (r ∷ rs) = let rest = drop_complete rs in if r.is_complete then rest else r ∷ rest

  unfoldable pub delete_complete_position : PositionRecordTable F → PositionRecordTable F
  unfolding drop_complete
  delete_complete_position t = record t { records = drop_complete t.records }

module _ {F : Type 0} ⦃d : Double F⦄ where
  open d use {of_int, add, sub, mul, div, lt, eq, ceil_u32}

  -- The constructor for the fill of an opening order.
  abbrev pub open_record : ℕ → ℕ → F → F → ℤ → PositionRecord F
  open_record id size price average sign = record {
    open_order_id = id;
    open_size = size;
    open_price = price;
    average_at_open = average;
    close_order_id = 0;
    close_size = 0;
    close_price = zero_point;
    average_at_close = zero_point;
    is_complete = false;
    pnl = zero_point;
    sign = sign;
  }

  -- The constructor for what a partial close leaves open.
  abbrev pub unclosed_record : PositionRecord F → ℕ → PositionRecord F
  unclosed_record previous closed_size = record {
    open_order_id = previous.open_order_id;
    open_size = sub32 previous.open_size closed_size;
    open_price = previous.open_price;
    average_at_open = previous.average_at_open;
    close_order_id = 0;
    close_size = 0;
    close_price = zero_point;
    average_at_close = zero_point;
    is_complete = false;
    pnl = zero_point;
    sign = previous.sign;
  }

  abbrev pub set_partial_close_info : PositionRecord F → ℕ → ℕ → F → F → PositionRecord F
  set_partial_close_info r id size price average = record r {
    close_order_id = id;
    open_size = size;
    close_size = size;
    close_price = price;
    average_at_close = average;
    is_complete = true;
    pnl = mul (mul (sub price r.open_price) (of_int (pos size))) (of_int r.sign);
  }

  abbrev pub set_open_info : PositionRecord F → ℕ → ℕ → F → F → PositionRecord F
  set_open_info r id size price average = record r {
    open_order_id = id;
    open_size = size;
    open_price = price;
    average_at_open = average;
  }

  -- Every call leaves the last argument, `is_complete`, at its default `true`.
  abbrev pub set_close_info : PositionRecord F → ℕ → ℕ → F → F → PositionRecord F
  set_close_info r id size price average = record r {
    close_order_id = id;
    close_size = size;
    close_price = price;
    average_at_close = average;
    is_complete = true;
    pnl = mul (mul (sub price r.open_price) (of_int (pos size))) (of_int r.sign);
  }

  unfoldable pub new_table : Bool → PositionRecordTable F
  new_table is_long = record {
    is_long = is_long;
    sign = if is_long then pos 1 else negsuc 0;
    open_size = 0;
    pnl = zero_point;
    average = zero_point;
    records = [];
  }

  pub clear : PositionRecordTable F → PositionRecordTable F
  clear t = record t { records = []; pnl = zero_point; open_size = 0; average = zero_point }

  abbrev pub reset : PositionRecordTable F → PositionRecordTable F
  reset t = record t { records = []; pnl = zero_point }

  pub set_pnl : PositionRecordTable F → F → PositionRecordTable F
  set_pnl t pnl = record t { pnl = pnl }

  pub adjustment : PositionRecordTable F → F
  adjustment t = div t.pnl (of_int (pos t.open_size))

  pub shift_pnl : PositionRecordTable F → F → PositionRecordTable F
  shift_pnl t reference = record t {
    pnl = mul (mul (sub reference t.average) (of_int (pos t.open_size))) (of_int t.sign);
  }

  -- `( a - b ) * sign > 0`
  abbrev pub is_beyond : ℤ → F → F → Bool
  is_beyond sign a b = lt zero_point (mul (sub a b) (of_int sign))

  abbrev pub is_in_profit : ℤ → F → PositionRecord F → Bool
  is_in_profit sign send_price r = not r.is_complete && is_beyond sign send_price r.open_price

  -- The loop of `sizeofOrderWithPnl`.
  pub size_with_pnl : ℤ → F → List (PositionRecord F) → ℕ → F → ℕ × F
  size_with_pnl sign send_price [] sum pnl = (sum, pnl)
  size_with_pnl sign send_price (r ∷ rs) sum pnl =
      let hit = is_in_profit sign send_price r in
      size_with_pnl sign send_price rs (if hit then add32 sum r.open_size else sum) (
        if hit
        then add pnl
            (mul (mul (sub send_price r.open_price) (of_int sign)) (of_int (pos r.open_size)))
        else pnl)

  unfoldable pub sizeof_order_with_pnl : PositionRecordTable F → F → ℕ × F
  unfolding size_with_pnl
  sizeof_order_with_pnl t send_price = size_with_pnl t.sign send_price t.records 0 zero_point

  -- The new record goes before the first one whose price is beyond its own, or to the end.
  pub insert_record : ℤ → PositionRecord F → List (PositionRecord F) → List (PositionRecord F)
  insert_record sign r [] = r ∷ []
  insert_record sign r (x ∷ xs) =
      if is_beyond sign x.open_price r.open_price then r ∷ x ∷ xs else x ∷ insert_record sign r xs

  unfoldable pub record_open_position : PositionRecordTable F → ℕ → ℕ → F → PositionRecordTable F
  unfolding insert_record
  record_open_position t id size price =
      let open_size = add32 t.open_size size in
      let average =
        if ltb 0 open_size
        then add t.average
            (div (mul (sub price t.average) (of_int (pos size))) (of_int (pos open_size)))
        else zero_point in
      record t {
        open_size = open_size;
        average = average;
        records = insert_record t.sign (open_record id size price average t.sign) t.records;
      }

  -- One closing loop over the records in the order in which it meets them. `picks` is the loop's
  -- test. A record larger than what is left is split, its open rest first, and the loop ends.
  pub close_pass : (PositionRecord F → Bool) → ℕ → F → F → List (PositionRecord F) → ℕ → F → Pass F
  close_pass picks id price average [] left pnl = ([], left, pnl)
  close_pass picks id price average (r ∷ rs) left pnl =
      let skip = keep r (close_pass picks id price average rs left pnl) in
      let whole = set_close_info r id r.open_size price average in
      let part = set_partial_close_info r id left price average in
      let shut =
        keep whole
          (close_pass picks id price average rs (left - r.open_size) (add pnl whole.pnl)) in
      if left == 0
      then (r ∷ rs, left, pnl)
      else if picks r
      then (if leb r.open_size left
          then shut
          else (unclosed_record r left ∷ part ∷ rs, 0, add pnl part.pnl))
      else skip

  -- The tests of the two first loops. The one for a short account does not look at `is_complete`.
  abbrev pub picks_profit : Bool → F → PositionRecord F → Bool
  picks_profit is_long price r =
      if is_long then lt r.open_price price && not r.is_complete else lt price r.open_price

  abbrev pub average_after_close : PositionRecordTable F → ℕ → ℕ → F → F
  average_after_close t open_size size price =
      if ltb 0 open_size
      then add t.average
          (div (mul (sub t.average price) (of_int (pos size))) (of_int (pos open_size)))
      else zero_point

  -- Both loops, in the order of the walk: first what is in profit, then whatever is met.
  pub close_passes : Bool → ℕ → F → F → List (PositionRecord F) → ℕ → F → Pass F
  unfolding close_pass
  close_passes is_long id price average rs size pnl =
      let (rs', left, pnl') =
        close_pass (picks_profit is_long price) id price average rs size pnl in
      close_pass (λ _. true) id price average rs' left pnl'

  unfoldable pub record_close_position : PositionRecordTable F → ℕ → ℕ → F → PositionRecordTable F
  unfolding close_passes
  record_close_position t id size price =
      let open_size = sub32 t.open_size size in
      let average = average_after_close t open_size size price in
      let (rs, _, pnl) =
        close_passes t.is_long id price average (oriented t.is_long t.records) size t.pnl in
      record t {
        open_size = open_size;
        average = average;
        pnl = pnl;
        records = oriented t.is_long rs;
      }

  -- A loop of `repackaging`: `left` more records from index `i` on, of at most `base_qty` shares.
  pub push_lots : (ℕ → F) → ℕ → F → ℤ → ℕ → ℕ → ℕ → ℕ → List (PositionRecord F) × ℕ × ℕ
  push_lots price base_qty average sign zero i order_id remainder = ([], order_id, remainder)
  push_lots price base_qty average sign (suc left) i order_id remainder =
      let size = if leb base_qty remainder then base_qty else remainder in
      let (rs, order_id', remainder') =
        push_lots price base_qty average sign left (i + 1) (order_id + 1) (remainder - size) in
      (open_record order_id size (price i) average sign ∷ rs, order_id', remainder')

  unfoldable pub repackaging : PositionRecordTable F → ℕ → F → F → PositionRecordTable F
  unfolding push_lots
  repackaging t base_qty mpv adjustment =
      let noe = ceil_u32 (div (of_int (pos t.open_size)) (of_int (pos base_qty))) in
      let average = sub t.average (mul adjustment (of_int t.sign)) in
      let noeh = ceil_u32 (div (of_int (pos noe)) (of_int (pos 2))) in
      let noel = sub32 noe noeh in
      let high =
        λ (i : ℕ). sub average (mul (mul (of_int (pos (sub32 noeh i))) mpv) (of_int t.sign)) in
      let low = λ (i : ℕ). sub average (mul (mul (of_int (pos i)) mpv) (of_int t.sign)) in
      let (rs, order_id, remainder) = push_lots high base_qty average t.sign noeh 1 1 t.open_size in
      let (rs', _, _) = push_lots low base_qty average t.sign noel 1 order_id remainder in
      record (reset t) { average = average; records = rs ++ rs' }

  first_price : List (PositionRecord F) → F
  first_price [] = zero_point
  first_price (r ∷ rs) = r.open_price

  pub starting_price : PositionRecordTable F → F
  unfolding first_price
  starting_price t = first_price t.records

  pub ending_price : PositionRecordTable F → F
  unfolding first_price
  ending_price t = first_price (reverse t.records)

  find_at_price : F → List (PositionRecord F) → ℕ
  find_at_price price [] = 0
  find_at_price price (r ∷ rs) =
      let rest = find_at_price price rs in
      let unclosed = sub32 r.open_size r.close_size in
      if eq r.open_price price && ltb 0 unclosed then unclosed else rest

  pub position_at_price : PositionRecordTable F → F → ℕ
  unfolding find_at_price
  position_at_price t price = find_at_price price t.records
