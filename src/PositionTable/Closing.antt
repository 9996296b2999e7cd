-- ===== src/PositionTable/Closing.antt =====
-- `recordClosePosition` on a balanced table without completed records: where it closes what it is
-- told to, and the counter stays the sum over the open records.
use mathlib.Core.List.{reverse-cons}
use tradingapp.Prelude.{
  ℕ, ◌+◌, ◌-◌, ◌≤◌, ◌≡◌, Bool, true, false, List, [], ◌∷◌, ◌++◌, reverse, arith, All, All-append,
  All-reverse, if◌then◌else◌,
}
use tradingapp.Prelude.Word.{sub32, sub32_small}
use tradingapp.Double.{Double, IsOrdered}
use tradingapp.PositionTable.{
  PositionRecord, PositionRecordTable, close_pass, close_passes, picks_profit, is_in_profit,
  oriented, average_after_close, record_close_position, sizeof_order_with_pnl,
}
use tradingapp.PositionTable.Sizes.{
  open_shares, closed_shares, IsOpen, IsSized, open_shares-oriented, closed_shares-oriented,
  All-oriented,
}
use tradingapp.PositionTable.Passes.{
  Covers, Covers-zero, Covers-eq, PicksOpen, IsSplit, picked_shares, close_pass-shares,
  close_pass-IsSized, close_pass-left, close_pass-Covers, close_pass-covered,
}
use tradingapp.PositionTable.Order.{
  Ordered, InOrder, InOrder-refl, Ordered-reverse, close_pass-Ordered,
}
use tradingapp.PositionTable.Ledger.{IsBalanced, open_shares-All}
use tradingapp.PositionTable.Profit.{
  picked_shares-oriented, sizeof_order_with_pnl-picked, sizeof-picks_profit,
}

module _ {F : Type 0} ⦃d : Double F⦄ where
  pub IsOpen-PicksOpen :
      (picks : PositionRecord F → Bool) (rs : List (PositionRecord F))
      → All IsOpen rs
      → All (PicksOpen picks) rs
  IsOpen-PicksOpen picks [] o = tt
  IsOpen-PicksOpen picks (r ∷ rs) (o, os) = (λ _. o, IsOpen-PicksOpen picks rs os)

  IsSplit-snoc :
      (picks : PositionRecord F → Bool) (rs : List (PositionRecord F)) (r : PositionRecord F)
      → IsSplit picks rs
      → All (λ x. picks x ≡ true → picks r ≡ true) rs
      → IsSplit picks (rs ++ r ∷ [])
  IsSplit-snoc picks [] r s h = (λ _. tt, tt)
  IsSplit-snoc picks (x ∷ xs) r (s, ss) (h, hs) =
      (λ e. All-append _ xs (r ∷ []) (s e) (h e, tt), IsSplit-snoc picks xs r ss hs)

module _ {F : Type 0} ⦃d : Double F⦄ (laws : IsOrdered F) (price : F) where
  open laws use {pos_long, lt_split}

  profit_below :
      (rs : List (PositionRecord F)) (r : PositionRecord F)
      → IsOpen r
      → All (λ x. InOrder true r.open_price x.open_price) rs
      → All (λ x. picks_profit true price x ≡ true → picks_profit true price r ≡ true) rs
  profit_below [] r o h = tt
  profit_below (x ∷ xs) r o (h, hs) = (
    ground (arith, pos_long r.open_price x.open_price, lt_split x.open_price r.open_price price),
    profit_below xs r o hs,
  )

  -- From the back of a long account's table, the records in profit come last.
  IsSplit-long :
      (rs : List (PositionRecord F))
      → All IsOpen rs
      → Ordered (InOrder true) rs
      → IsSplit (picks_profit true price) (reverse rs)
  IsSplit-long [] o s = tt
  IsSplit-long (r ∷ rs) (o, os) (s, ss) = rw (reverse-cons r rs) (
      IsSplit-snoc _ (reverse rs) r (IsSplit-long rs os ss)
        (All-reverse _ rs (profit_below rs r o s)))

module _ {F : Type 0} ⦃d : Double F⦄ (id : ℕ) (price average : F) where
  first_pass : Bool → List (PositionRecord F) → ℕ → F → List (PositionRecord F) × ℕ × F
  first_pass is_long = close_pass (picks_profit is_long price) id price average

  -- The second loop closes what the first one left, if open records hold it where it starts.
  close_passes-shares :
      (is_long : Bool) (rs : List (PositionRecord F)) (size : ℕ) (pnl : F)
      → All IsSized rs
      → All IsOpen rs
      → let (rs', left, _) = first_pass is_long rs size pnl in
        Covers rs' left
        → let (rs', left, _) = close_passes is_long id price average rs size pnl in
          (left ≡ 0)
          × (open_shares rs' + size ≡ open_shares rs)
          × (closed_shares rs' ≡ closed_shares rs + size)
          × All IsSized rs'
  unfolding close_passes first_pass
  close_passes-shares is_long rs size pnl z o c =
      let picks = picks_profit is_long price in
      let (rs1, left1, pnl1) = close_pass picks id price average rs size pnl in
      let first =
        close_pass-shares picks id price average rs size pnl z (IsOpen-PicksOpen picks rs o) in
      let z1 = close_pass-IsSized picks id price average rs size pnl z in
      let second = close_pass-covered id price average rs1 left1 pnl1 z1 c in
      (
        second.0,
        omega (arith, first, second),
        omega (arith, first, second),
        close_pass-IsSized (λ _. true) id price average rs1 left1 pnl1 z1,
      )

  close_passes-Ordered :
      (R : F → F → Type 0) (is_long : Bool) (rs : List (PositionRecord F)) (size : ℕ) (pnl : F)
      → ((a : F) → R a a)
      → Ordered R rs
      → Ordered R (close_passes is_long id price average rs size pnl).0
  unfolding close_passes
  close_passes-Ordered R is_long rs size pnl same o =
      close_pass-Ordered (λ _. true) id price average R _ _ _ same
        (close_pass-Ordered (picks_profit is_long price) id price average R rs size pnl same o)

module _ {F : Type 0} ⦃d : Double F⦄ (laws : IsOrdered F) (price : F) where
  long-Covers :
      (id : ℕ) (average : F) (l : Bool)
      → l ≡ true
      → (rs : List (PositionRecord F)) (size : ℕ) (pnl : F) → All IsOpen rs
      → Ordered (InOrder l) rs
      → size ≤ open_shares rs
      → let (rs', left, _) = first_pass id price average l (oriented l rs) size pnl in
        Covers rs' left
  unfolding first_pass
  long-Covers id average false e rs size pnl o s h = cc
  long-Covers id average true e rs size pnl o s h = Covers-eq _ _ _ (omega arith) (
      close_pass-Covers (picks_profit true price) id price average (reverse rs) size 0 pnl
        (All-reverse IsOpen rs o) (IsSplit-long laws price rs o s)
        (omega (arith, open_shares-oriented true rs)))

  sizeof-signed :
      (t : PositionRecordTable F)
      → IsBalanced t
      → All IsOpen t.records
      → picked_shares (is_in_profit t.sign price) t.records
        ≡ picked_shares (picks_profit t.is_long price) t.records
  sizeof-signed t v o = rw v.signed (sizeof-picks_profit price laws t.is_long t.records o)

module _ {F : Type 0} where
  abbrev Walk : Bool → (F → F → Type 0) → F → F → Type 0
  Walk is_long R a b = if is_long then R b a else R a b

  oriented-Ordered :
      (R : F → F → Type 0) (is_long : Bool) (rs : List (PositionRecord F))
      → Ordered R rs
      → Ordered (Walk is_long R) (oriented is_long rs)
  oriented-Ordered R true rs o = Ordered-reverse R rs o
  oriented-Ordered R false rs o = o

  Ordered-oriented :
      (R : F → F → Type 0) (is_long : Bool) (rs : List (PositionRecord F))
      → Ordered (Walk is_long R) rs
      → Ordered R (oriented is_long rs)
  Ordered-oriented R true rs o = Ordered-reverse (λ a b. R b a) rs o
  Ordered-oriented R false rs o = o

  Walk-refl :
      (R : F → F → Type 0) (is_long : Bool) → ((a : F) → R a a) → (a : F) → Walk is_long R a a
  Walk-refl R true same = same
  Walk-refl R false same = same

module _ {F : Type 0} ⦃d : Double F⦄ (laws : IsOrdered F) (t : PositionRecordTable F)
    (v : IsBalanced t) (o : All IsOpen t.records) (id size : ℕ) (price : F)
    (enough : size ≤ t.open_size) where
  abbrev new_average : F
  new_average = average_after_close t (sub32 t.open_size size) size price

  abbrev pub ClosesExactly : PositionRecordTable F → Type 0
  ClosesExactly u =
      IsBalanced u × (u.open_size ≡ t.open_size - size) × (closed_shares u.records ≡ size)

  close-ClosesExactly :
      (let (rs, left, _) =
          first_pass id price new_average t.is_long (oriented t.is_long t.records) size t.pnl in
        Covers rs left)
      → ClosesExactly (record_close_position t id size price)
  unfolding record_close_position
  close-ClosesExactly c =
      let l = t.is_long in
      let rs = oriented l t.records in
      let R = InOrder l in
      let same = Walk-refl R l (InOrder-refl laws l) in
      let closed =
        close_passes-shares id price new_average l rs size t.pnl
          (All-oriented IsSized l t.records v.sized) (All-oriented IsOpen l t.records o) c in
      let order =
        close_passes-Ordered id price new_average (Walk l R) l rs size t.pnl same
          (oriented-Ordered R l t.records v.sorted) in
      let rs' = (close_passes l id price new_average rs size t.pnl).0 in
      let counter = sub32_small t.open_size size enough v.word in
      (
        record {
          signed = v.signed;
          counted = omega (
            arith,
            counter,
            v.counted,
            closed,
            open_shares-oriented l rs',
            open_shares-oriented l t.records,
          );
          word = omega (arith, counter, v.word);
          sized = All-oriented IsSized l rs' closed.3;
          sorted = Ordered-oriented R l rs' order;
        },
        counter,
        omega (
          arith,
          closed,
          closed_shares-oriented l rs',
          closed_shares-oriented l t.records,
          open_shares-All t.records o,
        ),
      )

  -- A balanced table of a long account, none of whose records is completed: whatever the price, a fill
  -- of at most the open shares closes exactly its size. The table stays balanced.
  pub record_close_position-long :
      t.is_long ≡ true → ClosesExactly (record_close_position t id size price)
  record_close_position-long e = close-ClosesExactly (
      long-Covers laws price id new_average t.is_long e t.records size t.pnl o v.sorted
        (omega (arith, v.counted)))

  -- Either account, no record completed: a fill of at most the shares in profit at its price closes
  -- exactly its size.
  pub record_close_position-profit :
      size ≤ picked_shares (picks_profit t.is_long price) t.records
      → ClosesExactly (record_close_position t id size price)
  unfolding first_pass
  record_close_position-profit h =
      let l = t.is_long in
      let picks = picks_profit l price in
      close-ClosesExactly (
        Covers-zero _ _ (
          omega (
            arith,
            close_pass-left picks id price new_average (oriented l t.records) size t.pnl,
            picked_shares-oriented picks l t.records,
          )))

  -- Either account, no record completed: a fill of at most the size that `sizeofOrderWithPnl` finds at
  -- its price closes exactly its size. The table stays balanced.
  pub record_close_position-sizeof :
      size ≤ (sizeof_order_with_pnl t price).0
      → ClosesExactly (record_close_position t id size price)
  record_close_position-sizeof h =
      record_close_position-profit
        (omega (arith, sizeof_order_with_pnl-picked price t v, sizeof-signed laws price t v o))
