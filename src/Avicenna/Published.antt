-- ===== src/Avicenna/Published.antt =====
-- What a visit of a symbol's thread leaves in the symbol.
use tradingapp.Prelude.{
  ◌∷◌, ℕ, ◌≡◌, ◌⊎◌, true, some, ◌==◌, arith, if◌then◌else◌, Option-cases, Bool-cases, inl, inr,
}
use tradingapp.Double.{Double, zero_point}
use tradingapp.Symbol.{Symbol, reset_interval}
use tradingapp.Avicenna.{Library, Connection, Watched, connection_of, new_estimate, visit}

module _ {F : Type 0} where
  abbrev pub estimate_of : ℕ → Symbol F → F
  estimate_of index s = if index == 0 then s.now.price_estimate1 else s.now.price_estimate2

  -- The estimate of the other index.
  abbrev pub other_of : ℕ → Symbol F → F
  other_of index s = if index == 0 then s.now.price_estimate2 else s.now.price_estimate1

  -- A symbol with its estimates, its stack and the start of its interval put back to those of another.
  abbrev pub put_back : Symbol F → Symbol F → Symbol F
  put_back s v = record v {
    start_interval = s.start_interval;
    symbol_stack = s.symbol_stack;
    now = record v.now {
      price_estimate1 = s.now.price_estimate1;
      price_estimate2 = s.now.price_estimate2;
    };
  }

module _ {F S : Type 0} ⦃d : Double F⦄ (lib : Library F S) where
  open d use {lt, eq}

  new_estimate-answers :
      (fuel : ℕ) (latest : F) (c v : Connection F S) (estimate : F)
      → lt zero_point latest ≡ true
      → new_estimate lib fuel latest c ≡ some (estimate, v)
      → estimate ≡ v.price_estimate
  unfolding new_estimate
  new_estimate-answers fuel latest c v estimate positive e = ground arith

  -- A thread's visit of a symbol with a positive last price, whose new estimate of the connection is
  -- positive. The symbol's estimate of the thread's index is the new one, or equal to it; the estimate of
  -- the other index is as before, but that the first index, if its estimate was equal to the new one,
  -- gives it to the other. The symbol's quote, its skew and the prices of its two intervals are as
  -- before, and the next price starts a new interval. The stack is as before, or has a stamp of the
  -- symbol as it is now in front.
  pub visit-publishes :
      (fuel index : ℕ) (w u : Watched F S)
      → lt zero_point w.symbol.close_price ≡ true
      → visit lib fuel index w ≡ some u
      → lt zero_point (connection_of index u).price_estimate ≡ true
      → let e = (connection_of index u).price_estimate in
        let s = w.symbol in
        let v = u.symbol in
        ((estimate_of index v ≡ e) ⊎ (eq e (estimate_of index v) ≡ true))
        × ((other_of index v ≡ other_of index s)
            ⊎ ((index ≡ 0) × (eq e s.now.price_estimate1 ≡ true) × (v.now.price_estimate2 ≡ e)))
        × (v.start_interval ≡ true)
        × ((v.symbol_stack ≡ s.symbol_stack) ⊎ (v.symbol_stack ≡ v.now ∷ s.symbol_stack))
        × (put_back s v ≡ s)
  unfolding visit reset_interval
  visit-publishes fuel index w u positive e fine =
      let c = connection_of index w in
      elim (Option-cases (new_estimate lib fuel w.symbol.close_price c)) [
        | inl stuck ↦ ground arith
        | inr ((estimate, v), found) ↦
            let priced =
              new_estimate-answers fuel w.symbol.close_price c v estimate positive found in
            elim (Bool-cases (index == 0)) [ inl first ↦ ground arith | inr second ↦ ground arith ]
      ]
