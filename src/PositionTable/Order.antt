-- ===== src/PositionTable/Order.antt =====
-- The order of the table: by `( a - b ) * sign > 0`, upwards for a long account and downwards for a
-- short one.
use mathlib.Core.List.{reverse-cons}
use tradingapp.Prelude.{
  ℕ, ◌-◌, ◌≡◌, Bool, true, false, List, [], ◌∷◌, ◌++◌, reverse, arith, All, All-append, All-reverse,
  if◌then◌else◌,
}
use tradingapp.Prelude.Int.{ℤ, pos, negsuc}
use tradingapp.Double.{Double, IsOrdered}
use tradingapp.PositionTable.{
  PositionRecord, is_beyond, insert_record, close_pass, set_close_info, drop_complete,
}

abbrev pub sign_of : Bool → ℤ
sign_of is_long = if is_long then pos 1 else negsuc 0

module _ {F : Type 0} where
  -- Each price stands in the relation to every later one.
  abbrev pub Ordered : (F → F → Type 0) → List (PositionRecord F) → Type 0
  Ordered R [] = Unit
  Ordered R (r ∷ rs) = All (λ x. R r.open_price x.open_price) rs × Ordered R rs

module _ {F : Type 0} where
  Ordered-snoc :
      (R : F → F → Type 0) (rs : List (PositionRecord F)) (r : PositionRecord F)
      → Ordered R rs
      → All (λ x. R x.open_price r.open_price) rs
      → Ordered R (rs ++ r ∷ [])
  Ordered-snoc R [] r o h = (tt, tt)
  Ordered-snoc R (x ∷ xs) r (o, os) (h, hs) =
      (All-append _ xs (r ∷ []) o (h, tt), Ordered-snoc R xs r os hs)

  pub Ordered-reverse :
      (R : F → F → Type 0) (rs : List (PositionRecord F))
      → Ordered R rs
      → Ordered (λ a b. R b a) (reverse rs)
  Ordered-reverse R [] o = tt
  Ordered-reverse R (r ∷ rs) (o, os) =
      rw (reverse-cons r rs)
        (Ordered-snoc _ (reverse rs) r (Ordered-reverse R rs os) (All-reverse _ rs o))

  pub drop_complete-All :
      (P : PositionRecord F → Type 0) (rs : List (PositionRecord F))
      → All P rs
      → All P (drop_complete rs)
  unfolding drop_complete
  drop_complete-All P [] h = tt
  drop_complete-All P (r ∷ rs) (h, hs) = ground (arith, drop_complete-All P rs hs)

  pub drop_complete-Ordered :
      (R : F → F → Type 0) (rs : List (PositionRecord F))
      → Ordered R rs
      → Ordered R (drop_complete rs)
  unfolding drop_complete
  drop_complete-Ordered R [] o = tt
  drop_complete-Ordered R (r ∷ rs) (o, os) = ground (
    arith,
    drop_complete-All (λ x. R r.open_price x.open_price) rs o,
    drop_complete-Ordered R rs os,
  )

module _ {F : Type 0} ⦃d : Double F⦄ (picks : PositionRecord F → Bool) (id : ℕ)
    (price average : F) where
  -- A loop neither moves a record nor changes its opening price.
  pub close_pass-prices :
      (P : F → Type 0) (rs : List (PositionRecord F)) (left : ℕ) (pnl : F)
      → All (λ x. P x.open_price) rs
      → All (λ x. P x.open_price) (close_pass picks id price average rs left pnl).0
  unfolding close_pass
  close_pass-prices P [] left pnl h = tt
  close_pass-prices P (r ∷ rs) left pnl (h, hs) = ground (
    arith,
    close_pass-prices P rs left pnl hs,
    close_pass-prices P rs (left - r.open_size)
        (d.add pnl (set_close_info r id r.open_size price average).pnl) hs,
  )

  pub close_pass-Ordered :
      (R : F → F → Type 0) (rs : List (PositionRecord F)) (left : ℕ) (pnl : F)
      → ((a : F) → R a a)
      → Ordered R rs
      → Ordered R (close_pass picks id price average rs left pnl).0
  unfolding close_pass
  close_pass-Ordered R [] left pnl same o = tt
  close_pass-Ordered R (r ∷ rs) left pnl same (o, os) = ground (
    arith,
    same r.open_price,
    close_pass-prices (R r.open_price) rs left pnl o,
    close_pass-prices (R r.open_price) rs (left - r.open_size)
        (d.add pnl (set_close_info r id r.open_size price average).pnl) o,
    close_pass-Ordered R rs left pnl same os,
    close_pass-Ordered R rs (left - r.open_size)
        (d.add pnl (set_close_info r id r.open_size price average).pnl) same os,
  )

module _ {F : Type 0} ⦃d : Double F⦄ where
  -- `x` does not belong after `y`.
  abbrev pub InOrder : Bool → F → F → Type 0
  InOrder l x y = is_beyond (sign_of l) x y ≡ false

  pub insert_record-All :
      (P : PositionRecord F → Type 0) (sign : ℤ) (r : PositionRecord F)
      (rs : List (PositionRecord F))
      → P r
      → All P rs
      → All P (insert_record sign r rs)
  unfolding insert_record
  insert_record-All P sign r [] p h = (p, tt)
  insert_record-All P sign r (x ∷ xs) p (h, hs) = ground (arith, insert_record-All P sign r xs p hs)

module _ {F : Type 0} ⦃d : Double F⦄ (laws : IsOrdered F) where
  open laws use {pos_long, pos_short, lt_asymm, lt_split}

  pub lt_irrefl : (a : F) → d.lt a a ≡ false
  lt_irrefl a = ground (arith, lt_asymm a a)

  lt_trans : (a b c : F) → d.lt a b ≡ true → d.lt b c ≡ true → d.lt a c ≡ true
  lt_trans a b c p q = ground (arith, lt_split b a c, lt_asymm a b)

  pub is_beyond-sign_of :
      (is_long : Bool) (a b : F)
      → is_beyond (sign_of is_long) a b ≡ (if is_long then d.lt b a else d.lt a b)
  is_beyond-sign_of true a b = pos_long a b
  is_beyond-sign_of false a b = pos_short a b

  beyond_asymm :
      (l : Bool) (a b : F) → is_beyond (sign_of l) a b ≡ true → is_beyond (sign_of l) b a ≡ false
  beyond_asymm l a b = rw (is_beyond-sign_of l a b, is_beyond-sign_of l b a) (asymm l)
    where
      asymm :
          (l : Bool)
          → (if l then d.lt b a else d.lt a b) ≡ true
          → (if l then d.lt a b else d.lt b a) ≡ false
      asymm true = lt_asymm b a
      asymm false = lt_asymm a b

  beyond_trans :
      (l : Bool) (a b c : F)
      → is_beyond (sign_of l) a b ≡ true
      → is_beyond (sign_of l) b c ≡ true
      → is_beyond (sign_of l) a c ≡ true
  beyond_trans true a b c p q =
      rw (pos_long a c) (lt_trans c b a (rw pos_long at q) (rw pos_long at p))
  beyond_trans false a b c p q =
      rw (pos_short a c) (lt_trans a b c (rw pos_short at p) (rw pos_short at q))

  pub InOrder-refl : (l : Bool) (a : F) → InOrder l a a
  InOrder-refl l a = ground (arith, beyond_asymm l a a)

  beyond-InOrder :
      (l : Bool) (rs : List (PositionRecord F)) (a b : F)
      → is_beyond (sign_of l) a b ≡ true
      → All (λ x. InOrder l a x.open_price) rs
      → All (λ x. InOrder l b x.open_price) rs
  beyond-InOrder l [] a b e h = tt
  beyond-InOrder l (r ∷ rs) a b e (h, hs) =
      ground (arith, beyond_trans l a b r.open_price e, beyond-InOrder l rs a b e hs)

  insert_record-sorts :
      (l : Bool) (r : PositionRecord F) (rs : List (PositionRecord F))
      → Ordered (InOrder l) rs
      → Ordered (InOrder l) (insert_record (sign_of l) r rs)
  unfolding insert_record
  insert_record-sorts l r [] o = (tt, tt)
  insert_record-sorts l r (x ∷ xs) (o, os) = ground (
    arith,
    beyond_asymm l x.open_price r.open_price,
    beyond-InOrder l xs x.open_price r.open_price,
    insert_record-All (λ y. InOrder l x.open_price y.open_price) (sign_of l) r xs,
    insert_record-sorts l r xs os,
  )

  pub insert_record-Ordered :
      (l : Bool) (sign : ℤ) (r : PositionRecord F) (rs : List (PositionRecord F))
      → sign ≡ sign_of l
      → Ordered (InOrder l) rs
      → Ordered (InOrder l) (insert_record sign r rs)
  insert_record-Ordered l sign r rs e o = rw e (insert_record-sorts l r rs o)
