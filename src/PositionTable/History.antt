-- ===== src/PositionTable/History.antt =====
-- The table of a long account over a whole history, against the plain count of its shares.
use tradingapp.Prelude.{
  Bool, false, ◌&&◌, ℕ, ◌+◌, ◌-◌, ◌^◌, ◌≤◌, ◌<◌, ◌≡◌, refl, true, Option, none, some, List, [], ◌∷◌,
  arith, All, ltb, leb, if◌then◌else◌, inl, inr, Bool-cases,
}
use tradingapp.Double.{Double, IsOrdered}
use tradingapp.PositionTable.{
  PositionRecordTable, new_table, record_open_position, record_close_position,
  delete_complete_position,
}
use tradingapp.PositionTable.Sizes.{IsOpen}
use tradingapp.PositionTable.Ledger.{
  IsBalanced, new_table-IsBalanced, record_open_position-IsBalanced,
  delete_complete_position-IsBalanced,
}
use tradingapp.PositionTable.Closing.{record_close_position-long}

-- A fill of an opening order, one of a closing order, or the end of a trade case, which deletes the
-- completed records.
pub data Trade (F : Type 0) : Type 0 where
  opened : ℕ → ℕ → F → Trade F
  closed : ℕ → ℕ → F → Trade F
  ended : Trade F

-- The shares after the trades, and whether no closing fill has come since the last end of a case. none
-- if the count leaves its word or falls below zero, or if two closing fills have no end between them.
unfoldable pub count_shares : {F : Type 0} → List (Trade F) → Bool → ℕ → Option (ℕ × Bool)
count_shares [] clean n = some (n, clean)
count_shares (opened _ size _ ∷ ts) clean n =
    let rest = count_shares ts clean (n + size) in if ltb (n + size) (2 ^ 32) then rest else none
count_shares (closed _ size _ ∷ ts) clean n =
    let rest = count_shares ts false (n - size) in if clean && leb size n then rest else none
count_shares (ended ∷ ts) clean n = count_shares ts true n

module _ {F : Type 0} ⦃d : Double F⦄ where
  pub trade : Trade F → PositionRecordTable F → PositionRecordTable F
  trade (opened id size price) t = record_open_position t id size price
  trade (closed id size price) t = record_close_position t id size price
  trade ended t = delete_complete_position t

  pub trades : List (Trade F) → PositionRecordTable F → PositionRecordTable F
  unfolding trade
  trades [] t = t
  trades (x ∷ xs) t = trades xs (trade x t)

  abbrev pub IsAllOpen : Bool → PositionRecordTable F → Type 0
  IsAllOpen true t = All IsOpen t.records
  IsAllOpen false t = 0 ≤ 0

  -- A balanced long table with the counted shares; if it is clean, no record is completed.
  abbrev pub Holds : PositionRecordTable F → ℕ → Bool → Type 0
  Holds t n clean = IsBalanced t × IsAllOpen clean t × (t.open_size ≡ n) × (t.is_long ≡ true)

module _ {F : Type 0} ⦃d : Double F⦄ (laws : IsOrdered F) where
  opened-Holds :
      (id size : ℕ) (price : F) (clean : Bool) (t : PositionRecordTable F) (n : ℕ)
      → Holds t n clean
      → n + size < 2 ^ 32
      → Holds (trade (opened id size price) t) (n + size) clean
  unfolding trade record_open_position
  opened-Holds id size price true t n (v, o, e, l) h =
      let (v', e', _, o') = record_open_position-IsBalanced laws t v id size price (omega arith) in
      (v', o' o, omega arith, l)
  opened-Holds id size price false t n (v, o, e, l) h =
      let (v', e', _, o') = record_open_position-IsBalanced laws t v id size price (omega arith) in
      (v', omega arith, omega arith, l)

  closed-Holds :
      (id size : ℕ) (price : F) (t : PositionRecordTable F) (n : ℕ)
      → Holds t n true
      → size ≤ n
      → Holds (trade (closed id size price) t) (n - size) false
  unfolding trade record_close_position
  closed-Holds id size price t n (v, o, e, l) h =
      let (v', e', _) = record_close_position-long laws t v o id size price (omega arith) l in
      (v', omega arith, omega arith, l)

  ended-Holds :
      (clean : Bool) (t : PositionRecordTable F) (n : ℕ)
      → Holds t n clean
      → Holds (trade ended t) n true
  unfolding trade delete_complete_position
  ended-Holds clean t n (v, o, e, l) =
      let (v', o', e') = delete_complete_position-IsBalanced t v in (v', o', omega arith, l)

  trades-Holds :
      (ts : List (Trade F)) (t : PositionRecordTable F) (m n : ℕ) (clean last : Bool)
      → Holds t m clean
      → count_shares ts clean m ≡ some (n, last)
      → Holds (trades ts t) n last
  unfolding trades count_shares
  trades-Holds [] t m n clean last h e =
      let number : m ≡ n = ground arith in
      let flag : clean ≡ last = ground arith in rw (number, flag) at h
  trades-Holds (opened id size price ∷ ts) t m n clean last h e =
      elim (Bool-cases (ltb (m + size) (2 ^ 32))) [
        | inl fits ↦
            trades-Holds ts _ (m + size) n clean last
              (opened-Holds id size price clean t m h (ground arith)) (ground arith)
        | inr over ↦ ground arith
      ]
  trades-Holds (closed id size price ∷ ts) t m n true last h e = elim (Bool-cases (leb size m)) [
    | inl fits ↦
        trades-Holds ts _ (m - size) n false last (closed-Holds id size price t m h (ground arith))
          (ground arith)
    | inr over ↦ ground arith
  ]
  trades-Holds (closed id size price ∷ ts) t m n false last h e = ground arith
  trades-Holds (ended ∷ ts) t m n clean last h e =
      trades-Holds ts _ m n true last (ended-Holds clean t m h) e

  -- Over any history of opening and closing fills and ends of trade cases from an empty long table on,
  -- in which the shares fit into 32 bits, no closing fill takes more than there are, and between two
  -- closing fills a case ends: the table is balanced and its counter is the count of the shares, and
  -- all its records are open unless a closing fill has come since the last end of a case.
  pub trades-count_shares :
      (ts : List (Trade F)) (n : ℕ) (clean : Bool)
      → count_shares ts true 0 ≡ some (n, clean)
      → Holds (trades ts (new_table true)) n clean
  unfolding new_table
  trades-count_shares ts n clean e =
      trades-Holds ts (new_table true) 0 n true clean (new_table-IsBalanced true, tt, refl, refl) e
