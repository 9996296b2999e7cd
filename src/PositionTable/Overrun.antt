-- ===== src/PositionTable/Overrun.antt =====
-- Where `recordClosePosition` and the counter part: the second loop of a short account starts at the
-- records that the first one has just completed, and takes shares from them again.
use tradingapp.Prelude.{ℕ, ◌+◌, ◌-◌, ◌≤◌, ◌<◌, ◌≡◌, Bool, true, false, List, [], ◌∷◌, arith, All}
use tradingapp.Prelude.Word.{sub32, sub32_small}
use tradingapp.Double.{Double}
use tradingapp.PositionTable.{
  PositionRecord, PositionRecordTable, close_pass, set_close_info, close_passes, picks_profit,
  average_after_close, record_close_position,
}
use tradingapp.PositionTable.Sizes.{open_shares, IsOpen, IsSized}
use tradingapp.PositionTable.Passes.{
  picked_shares, close_pass-shares, close_pass-ge, close_pass-IsSized, close_pass-left,
}
use tradingapp.PositionTable.Closing.{IsOpen-PicksOpen}
use tradingapp.PositionTable.Ledger.{IsBalanced}

module _ {F : Type 0} ⦃d : Double F⦄ (id : ℕ) (price average : F) where
  -- The first record is completed and not empty.
  abbrev HeadIsClosed : List (PositionRecord F) → Type 0
  HeadIsClosed [] = ⊥
  HeadIsClosed (r ∷ rs) = (r.is_complete ≡ true) × (0 < r.open_size)

  close_pass-HeadIsClosed :
      (picks : PositionRecord F → Bool) (r : PositionRecord F) (rs : List (PositionRecord F))
      (left : ℕ) (pnl : F)
      → picks r ≡ true
      → 0 < r.open_size
      → r.open_size ≤ left
      → HeadIsClosed (close_pass picks id price average (r ∷ rs) left pnl).0
  unfolding close_pass
  close_pass-HeadIsClosed picks r rs left pnl p h k = ground arith

  close_pass-wasted :
      (rs : List (PositionRecord F)) (left : ℕ) (pnl : F)
      → All IsSized rs
      → HeadIsClosed rs
      → 0 < left
      → let (rs', left', _) = close_pass (λ _. true) id price average rs left pnl in
        open_shares rs + left' < open_shares rs' + left
  unfolding close_pass
  close_pass-wasted [] left pnl z c h = absurd c
  close_pass-wasted (r ∷ rs) left pnl (z, zs) c h = ground (
    arith,
    sub32_small r.open_size left,
    close_pass-ge (λ _. true) id price average rs (left - r.open_size)
        (d.add pnl (set_close_info r id r.open_size price average).pnl) zs,
  )

  close_passes-overrun :
      (r : PositionRecord F) (rs : List (PositionRecord F)) (size : ℕ) (pnl : F)
      → All IsOpen (r ∷ rs)
      → All IsSized (r ∷ rs)
      → 0 < r.open_size
      → picks_profit false price r ≡ true
      → picked_shares (picks_profit false price) (r ∷ rs) < size
      → open_shares (r ∷ rs)
        < open_shares (close_passes false id price average (r ∷ rs) size pnl).0 + size
  unfolding close_passes
  close_passes-overrun r rs size pnl o z h p over =
      let picks = picks_profit false price in
      let (rs1, left1, pnl1) = close_pass picks id price average (r ∷ rs) size pnl in
      let first =
        close_pass-shares picks id price average (r ∷ rs) size pnl z
          (IsOpen-PicksOpen picks (r ∷ rs) o) in
      let left = close_pass-left picks id price average (r ∷ rs) size pnl in
      let z1 = close_pass-IsSized picks id price average (r ∷ rs) size pnl z in
      let big : r.open_size ≤ size = ground arith in
      let head = close_pass-HeadIsClosed picks r rs size pnl p h big in
      let second = close_pass-wasted rs1 left1 pnl1 z1 head (omega (arith, left, over)) in
      omega (arith, first, second)

module _ {F : Type 0} ⦃d : Double F⦄ (t : PositionRecordTable F) (v : IsBalanced t) (id size : ℕ)
    (price : F) where
  -- The fault. On a short account whose records are all open and whose first record is in profit, a
  -- fill of more than the shares in profit leaves more shares in the open records than the counter
  -- says, although the fill is no larger than the open shares.
  pub record_close_position-short_overrun :
      (r : PositionRecord F) (rs : List (PositionRecord F))
      → t.is_long ≡ false
      → t.records ≡ r ∷ rs
      → All IsOpen (r ∷ rs)
      → 0 < r.open_size
      → picks_profit false price r ≡ true
      → picked_shares (picks_profit false price) (r ∷ rs) < size
      → size ≤ t.open_size
      → let u = record_close_position t id size price in u.open_size < open_shares u.records
  unfolding record_close_position
  record_close_position-short_overrun r rs e same o h p over enough =
      let average = average_after_close t (sub32 t.open_size size) size price in
      let z : All IsSized (r ∷ rs) = rw same at v.sized in
      let passes = close_passes-overrun id price average r rs size t.pnl o z h p over in
      let counted : open_shares (r ∷ rs) ≡ t.open_size = rw same at v.counted in
      let counter = sub32_small t.open_size size enough v.word in
      rw (e, same) (omega (arith, passes, counted, counter))
