-- ===== src/PositionTable/Repackaging.antt =====
-- `repackaging`: the open shares of a table dealt out anew in lots.
use tradingapp.Prelude.{
  ℕ, zero, suc, ◌+◌, ◌-◌, ◌*◌, ◌/◌, ◌^◌, ◌≤◌, ◌<◌, ◌≡◌, refl, ◌∙◌, ◌++◌, arith, All, All-append,
  length, length-append, leb, if◌then◌else◌,
}
use tradingapp.Prelude.Int.{ℤ, pos}
use tradingapp.Prelude.Word.{sub32, sub32_small}
use tradingapp.Double.{Double, HasExactCeil}
use tradingapp.PositionTable.{PositionRecordTable, push_lots, repackaging}
use tradingapp.PositionTable.Sizes.{open_shares, IsOpen, open_shares-append}

lots : ℕ → ℕ → ℕ
lots shares base_qty = (shares + base_qty - 1) / base_qty

lots-covers : (s b : ℕ) → 0 < b → s ≤ lots s b * b
unfolding lots
lots-covers s b h = grind arith

lots-le : (s b : ℕ) → 0 < b → lots s b ≤ s
unfolding lots
lots-le s b h = grind arith

module _ {F : Type 0} ⦃d : Double F⦄ (price : ℕ → F) (base_qty : ℕ) (average : F) (sign : ℤ) where
  push_lots-shares :
      (left i order_id remainder : ℕ)
      → let (rs, _, remainder') = push_lots price base_qty average sign left i order_id remainder in
        (length rs ≡ left)
        × (remainder' ≡ remainder - left * base_qty)
        × (open_shares rs + remainder' ≡ remainder)
        × All IsOpen rs
        × All (λ r. r.open_size ≤ base_qty) rs
  unfolding push_lots
  push_lots-shares zero i order_id remainder = (refl, omega arith, omega arith, tt, tt)
  push_lots-shares (suc left) i order_id remainder = ground (
    arith,
    push_lots-shares left (i + 1) (order_id + 1)
        (remainder - (if leb base_qty remainder then base_qty else remainder)),
  )

module _ {F : Type 0} ⦃d : Double F⦄ (high low : ℕ → F) (b : ℕ) (average : F) (sign : ℤ) where
  two_loops :
      (noeh noel i shares : ℕ)
      → shares ≤ (noeh + noel) * b
      → let (rs, id, rest) = push_lots high b average sign noeh i i shares in
        let lots = rs ++ (push_lots low b average sign noel i id rest).0 in
        (open_shares lots ≡ shares)
        × (length lots ≡ noeh + noel)
        × All IsOpen lots
        × All (λ r. r.open_size ≤ b) lots
  two_loops noeh noel i shares enough =
      let (rs, id, rest) = push_lots high b average sign noeh i i shares in
      let rs' = (push_lots low b average sign noel i id rest).0 in
      let first = push_lots-shares high b average sign noeh i i shares in
      let second = push_lots-shares low b average sign noel i id rest in
      (
        omega (arith, first, second, open_shares-append rs rs'),
        omega (arith, first, second, length-append rs rs'),
        All-append IsOpen rs rs' first.3 second.3,
        All-append _ rs rs' first.4 second.4,
      )

module _ {F : Type 0} ⦃d : Double F⦄ (exact : HasExactCeil F) where
  -- `repackaging` deals out exactly the open shares: into the least number of open lots that holds
  -- them, none above the base quantity, whatever the table held before. The counter stays.
  pub repackaging-shares :
      (t : PositionRecordTable F) (base_qty : ℕ) (mpv adjustment : F)
      → 0 < base_qty
      → base_qty < 2 ^ 32
      → t.open_size < 2 ^ 32
      → let u = repackaging t base_qty mpv adjustment in
        (open_shares u.records ≡ t.open_size)
        × (u.open_size ≡ t.open_size)
        × (length u.records ≡ (t.open_size + base_qty - 1) / base_qty)
        × All IsOpen u.records
        × All (λ r. r.open_size ≤ base_qty) u.records
  unfolding repackaging lots
  repackaging-shares t b mpv adjustment pos_b word_b word =
      let noe = d.ceil_u32 (d.div (d.of_int (pos t.open_size)) (d.of_int (pos b))) in
      let noeh = d.ceil_u32 (d.div (d.of_int (pos noe)) (d.of_int (pos 2))) in
      let number : noe ≡ lots t.open_size b = exact.ceil_div t.open_size b pos_b word word_b in
      let few : noe < 2 ^ 32 = omega (arith, number, lots-le t.open_size b pos_b) in
      let half : noeh ≡ (noe + 2 - 1) / 2 = exact.ceil_div noe 2 (omega arith) few (omega arith) in
      let all : noeh + sub32 noe noeh ≡ noe =
        omega (arith, half, sub32_small noe noeh (omega arith) few) in
      let enough : t.open_size ≤ (noeh + sub32 noe noeh) * b =
        rw (all, number) (lots-covers t.open_size b pos_b) in
      let (sum, count, opened, sizes) =
        two_loops _ _ b _ t.sign noeh (sub32 noe noeh) 1 t.open_size enough in
      (sum, refl, count ∙ all ∙ number, opened, sizes)
