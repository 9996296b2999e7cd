-- ===== src/TradeAccount/Tranches.antt =====
-- The count of tranches, which a fill that closes takes down. Only `HedgedMode`, which no selection
-- of a case makes, takes it up.
use native.Mathlib.Nat.{div_self, div-lt_iff_lt-mul}
use tradingapp.Prelude.{ℕ, ◌-◌, ◌/◌, ◌^◌, ◌≤◌, ◌<◌, ◌≡◌, arith, if◌then◌else◌}
use tradingapp.Prelude.Int.{pos, ◌+ℤ◌, ◌-ℤ◌, quot, ltb_ℤ, int_laws}
use tradingapp.Prelude.Word.{sub32}
use tradingapp.Double.{Double}
use tradingapp.TradeAccount.State.{TradeAccount, calculate_spread}
use tradingapp.TradeAccount.Fills.{note_fill, on_open_fill, on_close_fill}

below_one : (m n : ℕ) → n < m → n / m ≡ 0
below_one m n h =
    let e = (div-lt_iff_lt-mul {k = m} {x = n} {y = 1} (omega arith)).1 (omega arith) in
    omega (arith, e)

module _ {F : Type 0} ⦃d : Double F⦄ where
  note_fill-tranch :
      (id size : ℕ) (t : TradeAccount F)
      → let u = note_fill id size t in
        (u.total ≡ t.total) × (u.max_pos ≡ t.max_pos) × (u.tranch_counter ≡ t.tranch_counter)
  unfolding note_fill
  note_fill-tranch id size t = ground arith

  on_open_fill-tranch :
      (id size : ℕ) (price : F) (t other : TradeAccount F)
      → let u = (on_open_fill id price size t other).0 in
        (u.total ≡ t.total +ℤ pos size)
        × (u.max_pos ≡ t.max_pos)
        × (u.tranch_counter ≡ t.tranch_counter)
  unfolding on_open_fill calculate_spread
  on_open_fill-tranch id size price t other = ground (arith, note_fill-tranch id size t)

  -- The count after a fill that closes shares.
  on_close_fill-tranch :
      (id size : ℕ) (price : F) (t : TradeAccount F)
      → let u = on_close_fill id price size t in
        u.tranch_counter ≡ (
          if ltb_ℤ (quot (t.total -ℤ pos size) t.max_pos) (quot t.total t.max_pos)
          then sub32 t.tranch_counter 1
          else t.tranch_counter)
  unfolding on_close_fill
  on_close_fill-tranch id size price t = ground (arith, note_fill-tranch id size t)

  -- The fault. An account opens its first full tranche and then closes any part of it. Nothing has
  -- counted the tranche, so the count goes from 0 to the greatest 32-bit number.
  pub on_close_fill-tranch_wraps :
      (id id' n : ℕ) (price price' : F) (t other : TradeAccount F)
      → t.total ≡ pos 0
      → t.tranch_counter ≡ 0
      → 0 < n
      → n ≤ t.max_pos
      → let u = (on_open_fill id price t.max_pos t other).0 in
        (u.tranch_counter ≡ 0) × ((on_close_fill id' price' n u).tranch_counter ≡ 2 ^ 32 - 1)
  unfolding quot sub32
  on_close_fill-tranch_wraps id id' n price price' t other flat none_yet some_shares h =
      let (total, max_pos, counter) = on_open_fill-tranch id t.max_pos price t other in
      let u = (on_open_fill id price t.max_pos t other).0 in
      let m = t.max_pos in
      let full : u.total ≡ pos m = rw (total, flat) (omega int_laws) in
      let part : u.total -ℤ pos n ≡ pos (m - n) = rw full (omega int_laws) in
      let closed = on_close_fill-tranch id' n price' u in
      (
        omega (arith, counter, none_yet),
        rw
            (
              closed,
              part,
              full,
              max_pos,
              below_one m (m - n) (omega arith),
              div_self {n = m} (omega arith),
              counter,
              none_yet,
            )
            (ground arith),
      )
