-- ===== src/Symbol/Bars.antt =====
-- The bars of a symbol's intervals, and the estimates of its two indices.
use tradingapp.Prelude.{◌≡◌, true, false, List, [], ◌∷◌, arith}
use tradingapp.Double.{Double, zero_point, IsOrdered}
use tradingapp.Symbol.{
  Symbol, Update, new_price, new_quote, new_quote_skewed, new_skew, new_estimate, is_read, update,
  updates, update_price, reset_interval,
}

module _ {F : Type 0} ⦃d : Double F⦄ where
  open d use {lt}

  -- The first and the last price of an interval are not below its least, nor above its greatest.
  abbrev pub IsBar : F → F → F → F → Type 0
  IsBar open_price close_price minimum maximum =
      (lt open_price minimum ≡ false)
      × (lt maximum open_price ≡ false)
      × (lt close_price minimum ≡ false)
      × (lt maximum close_price ≡ false)

  -- Both bars of a symbol are such.
  abbrev pub HasBars : Symbol F → Type 0
  HasBars s =
      IsBar s.open_price s.close_price s.min_price s.max_price
      × IsBar s.open_price_prev s.close_price_prev s.min_price_prev s.max_price_prev

module _ {F : Type 0} ⦃d : Double F⦄ (laws : IsOrdered F) where
  open d use {lt}
  open laws use {lt_asymm, lt_split}

  irreflexive : (a : F) → lt a a ≡ false
  irreflexive a = ground (arith, lt_asymm a a)

  above_greatest : (a b c : F) → lt b c ≡ true → lt b a ≡ false → lt c a ≡ false
  above_greatest a b c less least = ground (arith, lt_split c b a, lt_asymm b c)

  below_least : (a b c : F) → lt c b ≡ true → lt a b ≡ false → lt a c ≡ false
  below_least a b c less greatest = ground (arith, lt_split a b c, lt_asymm c b)

  update_price-HasBars : (price : F) (s : Symbol F) → HasBars s → HasBars (update_price price s)
  unfolding update_price
  update_price-HasBars price s v =
      let same = irreflexive price in
      let above = above_greatest s.open_price s.max_price price in
      let below = below_least s.open_price s.min_price price in ground (arith, above, below)

  update-HasBars : (u : Update F) (s : Symbol F) → HasBars s → HasBars (update u s)
  unfolding update
  update-HasBars (new_price price) s v = update_price-HasBars price s v
  update-HasBars (new_quote q) s v = ground arith
  update-HasBars (new_quote_skewed skew q) s v = ground arith
  update-HasBars (new_skew skew) s v = ground arith
  update-HasBars (new_estimate estimate index) s v = ground arith
  update-HasBars is_read s v = ground arith

  -- Over any updates and reads, the first and the last price of an interval stay between its least
  -- and its greatest one, in the present interval and in the one before, if they were so at first.
  pub updates-HasBars : (us : List (Update F)) (s : Symbol F) → HasBars s → HasBars (updates us s)
  unfolding updates
  updates-HasBars [] s v = v
  updates-HasBars (u ∷ us) s v = updates-HasBars us (update u s) (update-HasBars u s v)

module _ {F : Type 0} ⦃d : Double F⦄ where
  open d use {lt, eq}

  -- The fault. When the first index has the same estimate as before, which is positive and another
  -- than that of the second index, the second index gets it, and the instances are told.
  pub reset_interval-crosses :
      (estimate : F → F → F → F → F) (s : Symbol F)
      → let e = estimate s.close_price s.min_price s.max_price s.open_price in
        lt zero_point e ≡ true
        → eq e s.now.price_estimate1 ≡ true
        → eq e s.now.price_estimate2 ≡ false
        → let u = reset_interval estimate 0 s in
          (u.now.price_estimate2 ≡ e)
          × (u.now.price_estimate1 ≡ s.now.price_estimate1)
          × (u.symbol_stack ≡ u.now ∷ s.symbol_stack)
  unfolding reset_interval
  reset_interval-crosses estimate s positive same differs = ground arith
