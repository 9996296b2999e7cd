-- ===== src/TradeAccount/Positions.antt =====
-- The position of a trade account and its table of records: two books of the same shares.
use tradingapp.Prelude.{ℕ, ◌+◌, ◌-◌, ◌^◌, ◌≤◌, ◌<◌, ◌≡◌, ◌⊎◌, inl, inr, Bool, true, arith, All}
use tradingapp.Prelude.Int.{pos, ◌+ℤ◌, ◌-ℤ◌, int_laws}
use tradingapp.Double.{Double, IsOrdered}
use tradingapp.PositionTable.{record_open_position, record_close_position, sizeof_order_with_pnl}
use tradingapp.PositionTable.Sizes.{IsOpen}
use tradingapp.PositionTable.Ledger.{IsBalanced, record_open_position-IsBalanced}
use tradingapp.PositionTable.Closing.{record_close_position-long, record_close_position-sizeof}
use tradingapp.TradeAccount.State.{TradeAccount, calculate_spread}
use tradingapp.TradeAccount.Fills.{note_fill, on_open_fill, on_close_fill}

module _ {F : Type 0} ⦃d : Double F⦄ where
  -- The table is balanced, and the position counts the shares of its open records.
  pub record IsReconciled (t : TradeAccount F) : Type 0 where
    pub balanced : IsBalanced t.position_table
    pub agreed : t.total ≡ pos t.position_table.open_size

  calculate_spread-books :
      (price : F) (size : ℕ) (b : Bool) (t other : TradeAccount F)
      → let (u, v) = calculate_spread price size b t other in
        (u.total ≡ t.total)
        × (u.position_table ≡ t.position_table)
        × (v.total ≡ other.total)
        × (v.position_table ≡ other.position_table)
  unfolding calculate_spread
  calculate_spread-books price size b t other = ground arith

  note_fill-books :
      (id size : ℕ) (t : TradeAccount F)
      → ((note_fill id size t).total ≡ t.total)
        × ((note_fill id size t).position_table ≡ t.position_table)
  unfolding note_fill
  note_fill-books id size t = ground arith

  module _ (id size : ℕ) (price : F) (t other : TradeAccount F) where
    on_open_fill-books :
        let (u, v) = on_open_fill id price size t other in
        (u.total ≡ t.total +ℤ pos size)
        × (u.position_table ≡ record_open_position t.position_table id size price)
        × (v.total ≡ other.total)
        × (v.position_table ≡ other.position_table)
    unfolding on_open_fill
    on_open_fill-books = ground (
      arith,
      calculate_spread-books price size true (note_fill id size t) other,
      note_fill-books id size t,
    )

    on_close_fill-books :
        ((on_close_fill id price size t).total ≡ t.total -ℤ pos size)
        × ((on_close_fill id price size t).position_table
            ≡ record_close_position t.position_table id size price)
    unfolding on_close_fill
    on_close_fill-books = ground (arith, note_fill-books id size t)

  -- A fill that opens, as long as the shares fit into 32 bits: the position grows by exactly the
  -- fill, and it still agrees with the table, which stays balanced. The other account, whose spread
  -- may change, keeps its books.
  pub on_open_fill-IsReconciled :
      (laws : IsOrdered F) (id size : ℕ) (price : F) (t other : TradeAccount F)
      → IsReconciled t
      → IsReconciled other
      → t.position_table.open_size + size < 2 ^ 32
      → let (u, v) = on_open_fill id price size t other in
        IsReconciled u × (u.total ≡ t.total +ℤ pos size) × IsReconciled v × (v.total ≡ other.total)
  on_open_fill-IsReconciled laws id size price t other b c fits =
      let (total, table, total', table') = on_open_fill-books id size price t other in
      let (balanced, grown, _, _) =
        record_open_position-IsBalanced laws t.position_table b.balanced id size price fits in
      (
        record {
          balanced = rw table balanced;
          agreed = rw (table, grown, total, b.agreed) (omega int_laws);
        },
        total,
        record { balanced = rw table' c.balanced; agreed = rw (table', total') c.agreed },
        total',
      )

  module _ (laws : IsOrdered F) (id size : ℕ) (price : F) (t : TradeAccount F) where
    -- What a fill of `size` shares can close.
    abbrev pub CanClose : Type 0
    CanClose =
        (size ≤ t.position_table.open_size)
        × ((t.position_table.is_long ≡ true)
            ⊎ (size ≤ (sizeof_order_with_pnl t.position_table price).0))

    abbrev Closes : Type 0
    Closes =
        let u = record_close_position t.position_table id size price in
        IsBalanced u × (u.open_size ≡ t.position_table.open_size - size)

    CanClose-Closes :
        IsBalanced t.position_table → All IsOpen t.position_table.records → CanClose → Closes
    CanClose-Closes b opened (enough, can) = elim can [
      | inl e ↦
          let c =
            record_close_position-long laws t.position_table b opened id size price enough e in
          (c.0, c.1)
      | inr e ↦
          let c =
            record_close_position-sizeof laws t.position_table b opened id size price enough e in
          (c.0, c.1)
    ]

    -- A fill that closes, on a table without completed records, of at most the open shares, and, for
    -- a short account, of at most the shares in profit at its price: the position shrinks by exactly
    -- the fill, and it still agrees with the table, which stays balanced.
    pub on_close_fill-IsReconciled :
        IsReconciled t
        → All IsOpen t.position_table.records
        → CanClose
        → let u = on_close_fill id price size t in IsReconciled u × (u.total ≡ t.total -ℤ pos size)
    on_close_fill-IsReconciled b opened can =
        let (total, table) = on_close_fill-books id size price t t in
        let (balanced, shrunk) = CanClose-Closes b.balanced opened can in
        (
          record {
            balanced = rw table balanced;
            agreed = rw (table, shrunk, total, b.agreed) (omega (int_laws, can.0));
          },
          total,
        )
