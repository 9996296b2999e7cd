-- ===== src/Symbol.antt =====
-- config/SymbolConfig.h: the market data of a symbol, as the connections and the estimates update it
-- and the threads of instances read it. What the configuration sets and nothing changes is left out.
pub mod Currency
pub mod Bars
pub mod Samples
mod Tests
use tradingapp.Prelude.{
  ℕ, ◌≡◌, Bool, true, false, not, ◌&&◌, ◌||◌, Option, none, some, List, [], ◌∷◌, ◌==◌,
  if◌then◌else◌,
}
use tradingapp.Prelude.Int.{pos}
use tradingapp.Double.{Double, zero_point}
use tradingapp.TradeInstance.State.{Bar, SymbolStamp}

-- A copy of the data at one moment, the program's `SymbolStamp`.
pub record Stamp (F : Type 0) : Type 0 where
  pub price_estimate1 : F
  pub price_estimate2 : F
  pub instrument_skew : F
  pub bid_size : ℕ
  pub bid_price : F
  pub ask_size : ℕ
  pub ask_price : F

-- `now` holds the fields that `push` copies; the stack's last element is its head here.
pub record Symbol (F : Type 0) : Type 0 where
  pub start_interval : Bool
  pub open_price : F
  pub min_price : F
  pub max_price : F
  pub close_price : F
  pub open_price_prev : F
  pub min_price_prev : F
  pub max_price_prev : F
  pub close_price_prev : F
  pub now : Stamp F
  pub symbol_stack : List (Stamp F)

-- A quote of the market: the sizes are 32-bit numbers, which a double holds exactly.
pub record Quote (F : Type 0) : Type 0 where
  pub quoted_bid_size : ℕ
  pub quoted_bid_price : F
  pub quoted_ask_size : ℕ
  pub quoted_ask_price : F

module _ {F : Type 0} where
  unfoldable pub push : Symbol F → Symbol F
  push s = record s { symbol_stack = s.now ∷ s.symbol_stack }

  -- none while the stack is empty, as the caller waits then.
  unfoldable pub pop : Symbol F → Option (Stamp F × Symbol F)
  pop s = elim s.symbol_stack [
    | [] ↦ none
    | newest ∷ _ ↦ some (newest, record s { symbol_stack = [] })
  ]

  -- What the thread of an instance reads: a stamp, and the bars as they are then.
  unfoldable pub read : Symbol F → Option (SymbolStamp F × Symbol F)
  unfolding pop
  read s = elim (pop s) [
    | none ↦ none
    | some (newest, u) ↦ some (
      record {
        price_estimate1 = newest.price_estimate1;
        price_estimate2 = newest.price_estimate2;
        stamp_bid_size = newest.bid_size;
        stamp_bid_price = newest.bid_price;
        stamp_ask_size = newest.ask_size;
        stamp_ask_price = newest.ask_price;
        bar = record {
          open_price = u.open_price;
          close_price = u.close_price;
          minimum = u.min_price;
          maximum = u.max_price;
        };
        bar_prev = record {
          open_price = u.open_price_prev;
          close_price = u.close_price_prev;
          minimum = u.min_price_prev;
          maximum = u.max_price_prev;
        };
      },
      u,
    )
  ]

  unfoldable pub update_instrument_skew : F → Symbol F → Symbol F
  update_instrument_skew skew s = record s { now = record s.now { instrument_skew = skew } }

module _ {F : Type 0} ⦃d : Double F⦄ where
  open d use {of_int, add, sub, div, lt, eq}

  unfoldable pub update_price : F → Symbol F → Symbol F
  update_price price s =
      if s.start_interval
      then record s {
        start_interval = false;
        close_price_prev = s.close_price;
        open_price_prev = s.open_price;
        max_price_prev = s.max_price;
        min_price_prev = s.min_price;
        close_price = price;
        open_price = price;
        max_price = price;
        min_price = price;
      }
      else record s {
        max_price = if lt s.max_price price then price else s.max_price;
        min_price = if lt price s.min_price then price else s.min_price;
        close_price = price;
      }

  -- A quote that differs and whose prices exceed 0.001, the quotient of 1 by 1000.
  abbrev pub is_accepted : Quote F → Stamp F → Bool
  is_accepted q now =
      let least = div (of_int (pos 1)) (of_int (pos 1000)) in
      not (
        now.bid_size == q.quoted_bid_size
        && now.ask_size == q.quoted_ask_size
        && eq now.bid_price q.quoted_bid_price
        && eq now.ask_price q.quoted_ask_price)
      && lt least q.quoted_bid_price
      && lt least q.quoted_ask_price

  abbrev pub with_quote : F → Quote F → Symbol F → Symbol F
  with_quote skew q s = record s {
    now = record s.now {
      bid_size = q.quoted_bid_size;
      bid_price = q.quoted_bid_price;
      ask_size = q.quoted_ask_size;
      ask_price = q.quoted_ask_price;
      instrument_skew = skew;
    };
  }

  -- `updateQuoteData` with the skew as an argument.
  unfoldable pub update_quote_skewed : F → Quote F → Symbol F → Symbol F
  unfolding push
  update_quote_skewed skew q s = if is_accepted q s.now then push (with_quote skew q s) else s

  abbrev pub skew_of : Quote F → F
  skew_of q =
      let bid = of_int (pos q.quoted_bid_size) in
      let ask = of_int (pos q.quoted_ask_size) in div (sub bid ask) (add bid ask)

  -- `updateQuoteData` with the sizes and prices alone.
  unfoldable pub update_quote : Quote F → Symbol F → Symbol F
  unfolding push
  update_quote q s = if is_accepted q s.now then push (with_quote (skew_of q) q s) else s

  abbrev pub with_estimate1 : F → Symbol F → Symbol F
  with_estimate1 e s = record s { now = record s.now { price_estimate1 = e } }

  abbrev pub with_estimate2 : F → Symbol F → Symbol F
  with_estimate2 e s = record s { now = record s.now { price_estimate2 = e } }

  -- The new estimate of an index, and the start of the next interval. The estimate is a function of
  -- the prices of the interval, which the library of estimates gives.
  unfoldable pub reset_interval : (F → F → F → F → F) → ℕ → Symbol F → Symbol F
  unfolding push
  reset_interval estimate index s =
      let e = estimate s.close_price s.min_price s.max_price s.open_price in
      let u =
        if not (lt zero_point e)
        then s
        else if index == 0 && not (eq e s.now.price_estimate1)
        then push (with_estimate1 e s)
        else if not (eq e s.now.price_estimate2)
        then push (with_estimate2 e s)
        else s in
      record u { start_interval = true }

-- What happens to a symbol: its connections and estimates update it, and its instance reads it.
pub data Update (F : Type 0) : Type 0 where
  new_price : F → Update F
  new_quote : Quote F → Update F
  new_quote_skewed : F → Quote F → Update F
  new_skew : F → Update F
  new_estimate : (F → F → F → F → F) → ℕ → Update F
  is_read : Update F

module _ {F : Type 0} ⦃d : Double F⦄ where
  unfoldable pub update : Update F → Symbol F → Symbol F
  unfolding update_price update_quote update_quote_skewed update_instrument_skew reset_interval read
      push pop
  update (new_price price) s = update_price price s
  update (new_quote q) s = update_quote q s
  update (new_quote_skewed skew q) s = update_quote_skewed skew q s
  update (new_skew skew) s = update_instrument_skew skew s
  update (new_estimate estimate index) s = reset_interval estimate index s
  update is_read s = elim (read s) [ none ↦ s | some (_, u) ↦ u ]

  unfoldable pub updates : List (Update F) → Symbol F → Symbol F
  updates [] s = s
  updates (u ∷ us) s = updates us (update u s)
