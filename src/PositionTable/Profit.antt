-- ===== src/PositionTable/Profit.antt =====
-- `sizeofOrderWithPnl`: the shares in profit at a price.
use mathlib.Core.List.{reverse-cons}
use tradingapp.Prelude.{
  ℕ, ◌+◌, ◌^◌, ◌≤◌, ◌<◌, ◌≡◌, refl, Bool, true, false, inl, inr, List, [], ◌∷◌, ◌++◌, reverse,
  arith, All, Bool-cases,
}
use tradingapp.Prelude.Int.{ℤ, pos}
use tradingapp.Prelude.Word.{add32, add32_small}
use tradingapp.Double.{Double, IsOrdered, zero_point}
use tradingapp.PositionTable.{
  PositionRecord, PositionRecordTable, is_in_profit, picks_profit, oriented, size_with_pnl,
  sizeof_order_with_pnl,
}
use tradingapp.PositionTable.Sizes.{open_shares, IsOpen}
use tradingapp.PositionTable.Passes.{picked_shares}
use tradingapp.PositionTable.Order.{sign_of, is_beyond-sign_of}
use tradingapp.PositionTable.Ledger.{IsBalanced}

module _ {F : Type 0} (picks : PositionRecord F → Bool) where
  picked_shares-append :
      (xs ys : List (PositionRecord F))
      → picked_shares picks (xs ++ ys) ≡ picked_shares picks xs + picked_shares picks ys
  picked_shares-append [] ys = omega arith
  picked_shares-append (x ∷ xs) ys = omega (arith, picked_shares-append xs ys)

  picked_shares-reverse :
      (xs : List (PositionRecord F)) → picked_shares picks (reverse xs) ≡ picked_shares picks xs
  picked_shares-reverse [] = refl
  picked_shares-reverse (x ∷ xs) =
      rw (reverse-cons x xs)
        (omega (arith, picked_shares-append (reverse xs) (x ∷ []), picked_shares-reverse xs))

  pub picked_shares-oriented :
      (is_long : Bool) (xs : List (PositionRecord F))
      → picked_shares picks (oriented is_long xs) ≡ picked_shares picks xs
  picked_shares-oriented true xs = picked_shares-reverse xs
  picked_shares-oriented false xs = refl

module _ {F : Type 0} ⦃d : Double F⦄ (price : F) where
  picked_shares-le :
      (sign : ℤ) (rs : List (PositionRecord F))
      → picked_shares (is_in_profit sign price) rs ≤ open_shares rs
  picked_shares-le sign [] = omega arith
  picked_shares-le sign (r ∷ rs) = ground (arith, picked_shares-le sign rs)

  size_with_pnl-picked :
      (sign : ℤ) (rs : List (PositionRecord F)) (sum : ℕ) (pnl : F)
      → sum + picked_shares (is_in_profit sign price) rs < 2 ^ 32
      → (size_with_pnl sign price rs sum pnl).0 ≡ sum + picked_shares (is_in_profit sign price) rs
  unfolding size_with_pnl
  size_with_pnl-picked sign [] sum pnl h = omega arith
  size_with_pnl-picked sign (r ∷ rs) sum pnl h =
      let gain =
        d.mul (d.mul (d.sub price r.open_price) (d.of_int sign)) (d.of_int (pos r.open_size)) in
      elim (Bool-cases (is_in_profit sign price r)) [
        | inl e ↦
            let fits = rw e at h in
            let step = add32_small sum r.open_size (omega arith) in
            rw (e, size_with_pnl)
              (omega (
                arith,
                step,
                size_with_pnl-picked sign rs (add32 sum r.open_size) (d.add pnl gain)
                    (omega (arith, step)),
              ))
        | inr e ↦
            let fits = rw e at h in
            rw (e, size_with_pnl)
              (omega (arith, size_with_pnl-picked sign rs sum pnl (omega arith)))
      ]

  -- The size found is the sum over the open records in profit, so never more than the open shares.
  pub sizeof_order_with_pnl-picked :
      (t : PositionRecordTable F)
      → IsBalanced t
      → let size = (sizeof_order_with_pnl t price).0 in
        (size ≡ picked_shares (is_in_profit t.sign price) t.records) × (size ≤ t.open_size)
  unfolding sizeof_order_with_pnl
  sizeof_order_with_pnl-picked t v =
      let bound = picked_shares-le t.sign t.records in
      let same =
        size_with_pnl-picked t.sign t.records 0 zero_point (omega (arith, v.counted, v.word)) in
      (omega (arith, same), omega (arith, same, v.counted))

  -- On records that are all open it is the sum over those that the closing loop picks.
  pub sizeof-picks_profit :
      IsOrdered F
      → (l : Bool) (rs : List (PositionRecord F)) → All IsOpen rs
      → picked_shares (is_in_profit (sign_of l) price) rs ≡ picked_shares (picks_profit l price) rs
  sizeof-picks_profit laws l [] o = refl
  sizeof-picks_profit laws l (r ∷ rs) (o, os) =
      ground (arith, is_beyond-sign_of laws l price r.open_price, sizeof-picks_profit laws l rs os)
