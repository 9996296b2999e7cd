-- ===== src/PositionTable/Sizes.antt =====
-- The shares in a table's records: those still open, and those closed.
use mathlib.Core.List.{reverse-cons}
use tradingapp.Prelude.{
  ℕ, ◌+◌, ◌^◌, ◌<◌, ◌≡◌, refl, Bool, true, false, List, [], ◌∷◌, ◌++◌, reverse, arith, All,
  All-reverse, if◌then◌else◌,
}
use tradingapp.PositionTable.{PositionRecord, oriented}

module _ {F : Type 0} where
  abbrev pub open_share : PositionRecord F → ℕ
  open_share r = if r.is_complete then 0 else r.open_size

  abbrev pub closed_share : PositionRecord F → ℕ
  closed_share r = if r.is_complete then r.close_size else 0

  abbrev pub open_shares : List (PositionRecord F) → ℕ
  open_shares [] = 0
  open_shares (r ∷ rs) = open_share r + open_shares rs

  abbrev pub closed_shares : List (PositionRecord F) → ℕ
  closed_shares [] = 0
  closed_shares (r ∷ rs) = closed_share r + closed_shares rs

  abbrev pub IsOpen : PositionRecord F → Type 0
  IsOpen r = r.is_complete ≡ false

  -- The size is a `uint32_t`.
  abbrev pub IsSized : PositionRecord F → Type 0
  IsSized r = r.open_size < 2 ^ 32

module _ {F : Type 0} where
  pub open_shares-append :
      (xs ys : List (PositionRecord F)) → open_shares (xs ++ ys) ≡ open_shares xs + open_shares ys
  open_shares-append [] ys = omega arith
  open_shares-append (x ∷ xs) ys = omega (arith, open_shares-append xs ys)

  pub closed_shares-append :
      (xs ys : List (PositionRecord F))
      → closed_shares (xs ++ ys) ≡ closed_shares xs + closed_shares ys
  closed_shares-append [] ys = omega arith
  closed_shares-append (x ∷ xs) ys = omega (arith, closed_shares-append xs ys)

  open_shares-reverse : (xs : List (PositionRecord F)) → open_shares (reverse xs) ≡ open_shares xs
  open_shares-reverse [] = refl
  open_shares-reverse (x ∷ xs) =
      rw (reverse-cons x xs)
        (omega (arith, open_shares-append (reverse xs) (x ∷ []), open_shares-reverse xs))

  closed_shares-reverse :
      (xs : List (PositionRecord F)) → closed_shares (reverse xs) ≡ closed_shares xs
  closed_shares-reverse [] = refl
  closed_shares-reverse (x ∷ xs) =
      rw (reverse-cons x xs)
        (omega (arith, closed_shares-append (reverse xs) (x ∷ []), closed_shares-reverse xs))

  -- The direction of the walk changes no sum.
  pub open_shares-oriented :
      (is_long : Bool) (xs : List (PositionRecord F))
      → open_shares (oriented is_long xs) ≡ open_shares xs
  open_shares-oriented true xs = open_shares-reverse xs
  open_shares-oriented false xs = refl

  pub closed_shares-oriented :
      (is_long : Bool) (xs : List (PositionRecord F))
      → closed_shares (oriented is_long xs) ≡ closed_shares xs
  closed_shares-oriented true xs = closed_shares-reverse xs
  closed_shares-oriented false xs = refl

  pub All-oriented :
      (P : PositionRecord F → Type 0) (is_long : Bool) (xs : List (PositionRecord F))
      → All P xs
      → All P (oriented is_long xs)
  All-oriented P true xs h = All-reverse P xs h
  All-oriented P false xs h = h
