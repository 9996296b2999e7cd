-- ===== src/PositionTable/Ledger.antt =====
-- The invariant of a position table: the counter `open_size` is the sum over the open records, and
-- the records stand in the order of their prices.
use tradingapp.Prelude.{ℕ, ◌+◌, ◌^◌, ◌<◌, ◌≡◌, refl, ◌∙◌, List, [], ◌∷◌, arith, All}
use tradingapp.Prelude.Int.{ℤ}
use tradingapp.Prelude.Word.{add32_small}
use tradingapp.Double.{Double, IsOrdered}
use tradingapp.PositionTable.{
  PositionRecord, PositionRecordTable, open_record, insert_record, drop_complete, new_table,
  record_open_position, delete_complete_position,
}
use tradingapp.PositionTable.Sizes.{open_shares, closed_shares, IsOpen, IsSized}
use tradingapp.PositionTable.Order.{
  sign_of, Ordered, InOrder, insert_record-Ordered, insert_record-All, drop_complete-Ordered,
  drop_complete-All,
}

module _ {F : Type 0} where
  -- A table without completed records counts only what is open.
  pub open_shares-All : (rs : List (PositionRecord F)) → All IsOpen rs → closed_shares rs ≡ 0
  open_shares-All [] o = refl
  open_shares-All (r ∷ rs) (o, os) = ground (arith, open_shares-All rs os)

  pub drop_complete-IsOpen :
      (rs : List (PositionRecord F))
      → All IsOpen (drop_complete rs) × (open_shares (drop_complete rs) ≡ open_shares rs)
  unfolding drop_complete
  drop_complete-IsOpen [] = (tt, refl)
  drop_complete-IsOpen (r ∷ rs) = ground (arith, drop_complete-IsOpen rs)

module _ {F : Type 0} ⦃d : Double F⦄ where
  pub record IsBalanced (t : PositionRecordTable F) : Type 0 where
    pub signed : t.sign ≡ sign_of t.is_long
    pub counted : open_shares t.records ≡ t.open_size
    pub word : t.open_size < 2 ^ 32
    pub sized : All IsSized t.records
    pub sorted : Ordered (InOrder t.is_long) t.records

  insert_record-shares :
      (sign : ℤ) (r : PositionRecord F) (rs : List (PositionRecord F))
      → IsOpen r
      → (open_shares (insert_record sign r rs) ≡ r.open_size + open_shares rs)
        × (closed_shares (insert_record sign r rs) ≡ closed_shares rs)
  unfolding insert_record
  insert_record-shares sign r [] o = ground arith
  insert_record-shares sign r (x ∷ xs) o = ground (arith, insert_record-shares sign r xs o)

  -- A new table is balanced.
  pub new_table-IsBalanced : (is_long : _) → IsBalanced (new_table is_long)
  unfolding new_table
  new_table-IsBalanced is_long = record {
    signed = refl;
    counted = refl;
    word = omega arith;
    sized = tt;
    sorted = tt;
  }

module _ {F : Type 0} ⦃d : Double F⦄ (laws : IsOrdered F) (t : PositionRecordTable F)
    (v : IsBalanced t) where
  -- `recordOpenPosition` keeps a balanced table balanced and adds the fill to the open shares, if the
  -- counter does not wrap. It completes no record and closes no share.
  pub record_open_position-IsBalanced :
      (id size : ℕ) (price : F)
      → t.open_size + size < 2 ^ 32
      → let u = record_open_position t id size price in
        IsBalanced u
        × (u.open_size ≡ t.open_size + size)
        × (closed_shares u.records ≡ closed_shares t.records)
        × (All IsOpen t.records → All IsOpen u.records)
  unfolding record_open_position
  record_open_position-IsBalanced id size price fits =
      let u = record_open_position t id size price in
      let fill = open_record id size price u.average t.sign in
      let shares = insert_record-shares t.sign fill t.records refl in
      let sum = add32_small t.open_size size fits in
      (
        record {
          signed = v.signed;
          counted = omega (arith, v.counted, shares, sum);
          word = omega (arith, sum);
          sized = insert_record-All IsSized t.sign fill t.records (omega arith) v.sized;
          sorted = insert_record-Ordered laws t.is_long t.sign fill t.records v.signed v.sorted;
        },
        sum,
        shares.1,
        insert_record-All IsOpen t.sign fill t.records refl,
      )

module _ {F : Type 0} ⦃d : Double F⦄ where
  -- `deleteCompletePosition` keeps a balanced table balanced, with the same counter, and leaves no
  -- completed record.
  pub delete_complete_position-IsBalanced :
      (t : PositionRecordTable F)
      → IsBalanced t
      → let u = delete_complete_position t in
        IsBalanced u × All IsOpen u.records × (u.open_size ≡ t.open_size)
  unfolding delete_complete_position
  delete_complete_position-IsBalanced t v =
      let (opened, shares) = drop_complete-IsOpen t.records in
      (
        record {
          signed = v.signed;
          counted = shares ∙ v.counted;
          word = v.word;
          sized = drop_complete-All IsSized t.records v.sized;
          sorted = drop_complete-Ordered (InOrder t.is_long) t.records v.sorted;
        },
        opened,
        refl,
      )
