-- ===== src/Symbol/Currency.antt =====
-- What an instance reads of a symbol is what the symbol holds then.
use tradingapp.Prelude.{◌%◌, ◌^◌, ◌≤◌, ◌≡◌, some, List, [], ◌∷◌, arith, if◌then◌else◌}
use tradingapp.Double.{Double}
use tradingapp.TradeInstance.State.{Bar, SymbolStamp, TradeInstance, read_symbol_data}
use tradingapp.Symbol.{
  Stamp, Symbol, Update, new_price, new_quote, new_quote_skewed, new_skew, new_estimate, is_read,
  update, updates, read,
}

module _ {F : Type 0} where
  -- Two stamps with the same quote and the same estimates.
  abbrev pub IsSameData : Stamp F → Stamp F → Type 0
  IsSameData a b =
      (a.price_estimate1 ≡ b.price_estimate1)
      × (a.price_estimate2 ≡ b.price_estimate2)
      × (a.bid_size ≡ b.bid_size)
      × (a.bid_price ≡ b.bid_price)
      × (a.ask_size ≡ b.ask_size)
      × (a.ask_price ≡ b.ask_price)

  abbrev pub NewestIs : List (Stamp F) → Stamp F → Type 0
  NewestIs [] now = 0 ≤ 0
  NewestIs (newest ∷ _) now = IsSameData newest now

  -- The newest stamp, if there is one, has the symbol's data.
  abbrev pub IsCurrent : Symbol F → Type 0
  IsCurrent s = NewestIs s.symbol_stack s.now

  -- The four prices, from the first to the greatest, are those of a bar.
  abbrev pub IsBarOf : F × F × F × F → Bar F → Type 0
  IsBarOf (first, last, least, greatest) b =
      (b.open_price ≡ first) × (b.close_price ≡ last) × (b.minimum ≡ least) × (b.maximum ≡ greatest)

  abbrev pub bar_now : Symbol F → F × F × F × F
  bar_now s = (s.open_price, s.close_price, s.min_price, s.max_price)

  abbrev pub bar_before : Symbol F → F × F × F × F
  bar_before s = (s.open_price_prev, s.close_price_prev, s.min_price_prev, s.max_price_prev)

module _ {F : Type 0} ⦃d : Double F⦄ where
  update-IsCurrent : (u : Update F) (s : Symbol F) → IsCurrent s → IsCurrent (update u s)
  unfolding update
  update-IsCurrent (new_price price) s v = ground arith
  update-IsCurrent (new_quote q) s v = ground arith
  update-IsCurrent (new_quote_skewed skew q) s v = ground arith
  update-IsCurrent (new_skew skew) s v = ground arith
  update-IsCurrent (new_estimate estimate index) s v = ground arith
  update-IsCurrent is_read s v = ground arith

  updates-IsCurrent : (us : List (Update F)) (s : Symbol F) → IsCurrent s → IsCurrent (updates us s)
  unfolding updates
  updates-IsCurrent [] s v = v
  updates-IsCurrent (u ∷ us) s v = updates-IsCurrent us (update u s) (update-IsCurrent u s v)

  -- Whatever updates and reads a symbol has seen since its stack was empty: an instance that reads it
  -- has then the quote that the symbol holds, its sizes as 32-bit numbers, the estimate that the
  -- instance's switch selects, and the first, last, least and greatest price of the present interval
  -- and of the one before; and the stack is empty again.
  pub updates-read :
      (us : List (Update F)) (s u : Symbol F) (stamp : SymbolStamp F) (t : TradeInstance F)
      → s.symbol_stack ≡ []
      → read (updates us s) ≡ some (stamp, u)
      → let now = (updates us s).now in
        let reader = read_symbol_data stamp t in
        (reader.bid_price ≡ now.bid_price)
        × (reader.ask_price ≡ now.ask_price)
        × (reader.bid_size ≡ now.bid_size % 2 ^ 32)
        × (reader.ask_size ≡ now.ask_size % 2 ^ 32)
        × (reader.price_estimate
            ≡ (if t.avicenna_toggle then now.price_estimate1 else now.price_estimate2))
        × IsBarOf (bar_now (updates us s)) reader.bar0
        × IsBarOf (bar_before (updates us s)) reader.bar1
        × (u.symbol_stack ≡ [])
  unfolding read read_symbol_data
  updates-read us s u stamp t empty e =
      let current = updates-IsCurrent us s (ground (arith, empty)) in ground (arith, current)
