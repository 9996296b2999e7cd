-- ===== src/Avicenna.antt =====
-- avicenna/AvicennaInterface.{h,cpp}: the estimates of the prices, which the two threads of an account
-- take from a closed library and put into the account's symbols. The library is the parameter
-- `Library`; what configures it, and the sleep between two passes, is left out.
pub mod WarmUp
pub mod Published
mod Tests
use tradingapp.Prelude.{
  ℕ, zero, suc, Bool, true, false, not, ◌&&◌, Option, none, some, List, [], ◌∷◌, ◌==◌,
  if◌then◌else◌,
}
use tradingapp.Prelude.Int.{pos, negsuc}
use tradingapp.Double.{Double, zero_point}
use tradingapp.Symbol.{Symbol, reset_interval}

-- The library: an object of it takes a price, and has an export value.
pub record Library (F S : Type 0) : Type 0 where
  pub calculate_super_plus : F → S → S
  pub export_value4 : S → F

-- `price_estimate_3` and `ms` are left out, as nothing changes them.
pub record Connection (F S : Type 0) : Type 0 where
  pub price_estimate : F
  pub startup : Bool
  pub object : S

-- A symbol of the account with its pair of connections.
pub record Watched (F S : Type 0) : Type 0 where
  pub symbol : Symbol F
  pub avicenna1 : Connection F S
  pub avicenna2 : Connection F S

module _ {F : Type 0} ⦃d : Double F⦄ where
  open d use {of_int, add, sub, mul, div, trunc_i32}

  -- `truncate(x, 4)`
  abbrev pub truncate4 : F → F
  truncate4 x = div (of_int (trunc_i32 (mul x (of_int (pos 10000))))) (of_int (pos 10000))

  -- The price that the loop tries next; 0.01 is the quotient of 1 by 100.
  abbrev pub next_price : Bool → F → F
  next_price invert val =
      let step = div (of_int (pos 1)) (of_int (pos 100)) in
      if invert then add val step else sub val step

module _ {F S : Type 0} ⦃d : Double F⦄ where
  open d use {of_int, le}

  abbrev pub new_connection : S → Connection F S
  new_connection object = record {
    price_estimate = of_int (negsuc 0);
    startup = true;
    object = object;
  }

  -- Whether the loop goes on.
  abbrev pub is_cold : Connection F S → Bool
  is_cold c = le c.price_estimate zero_point && c.startup

module _ {F S : Type 0} where
  abbrev pub connection_of : ℕ → Watched F S → Connection F S
  connection_of index w = if index == 0 then w.avicenna1 else w.avicenna2

  abbrev pub with_connection : ℕ → Connection F S → Watched F S → Watched F S
  with_connection index c w =
      if index == 0 then record w { avicenna1 = c } else record w { avicenna2 = c }

module _ {F S : Type 0} ⦃d : Double F⦄ (lib : Library F S) where
  open d use {lt}

  unfoldable pub calculate : F → Connection F S → Connection F S
  calculate price c =
      let object = lib.calculate_super_plus price c.object in
      record c { price_estimate = truncate4 (lib.export_value4 object); object = object }

  -- The loop at the start, on fuel.
  unfoldable pub warm_up : ℕ → Bool → F → Connection F S → Option (Connection F S)
  warm_up zero invert val c = if is_cold c then none else some c
  warm_up (suc fuel) invert val c =
      let price = next_price invert val in
      let rest = warm_up fuel (not invert) price (calculate price c) in
      if is_cold c then rest else some c

  -- `newEstimate`, of the last price; the other prices of the interval are not used.
  unfoldable pub new_estimate : ℕ → F → Connection F S → Option (F × Connection F S)
  unfolding calculate
  new_estimate fuel latest c =
      if not (lt zero_point latest)
      then some (zero_point, c)
      else elim (warm_up fuel true latest c) [
        | none ↦ none
        | some warm ↦
            let u = record (calculate latest warm) { startup = false } in some (u.price_estimate, u)
      ]

  -- What a thread does for one symbol, under the symbol's lock.
  unfoldable pub visit : ℕ → ℕ → Watched F S → Option (Watched F S)
  visit fuel index w = elim (new_estimate fuel w.symbol.close_price (connection_of index w)) [
    | none ↦ none
    | some (estimate, c) ↦ some (
        with_connection index c (record w {
          symbol = reset_interval (λ latest least greatest earliest. estimate) index w.symbol;
        }))
  ]

  -- A pass of the thread with an index over the symbols.
  unfoldable pub pass : ℕ → ℕ → List (Watched F S) → Option (List (Watched F S))
  pass fuel index [] = some []
  pass fuel index (w ∷ ws) = elim (visit fuel index w) [
    | none ↦ none
    | some u ↦ elim (pass fuel index ws) [ none ↦ none | some us ↦ some (u ∷ us) ]
  ]
