-- ===== src/Avicenna/WarmUp.antt =====
-- The loop that a connection runs before its first estimate.
use tradingapp.Prelude.{
  refl, Option, none, List, [], ◌∷◌, ℕ, zero, suc, ◌≤◌, ◌≡◌, Bool, true, false, not, some, arith,
  if◌then◌else◌, Bool-cases, inl, inr,
}
use tradingapp.Double.{Double, zero_point}
use tradingapp.Avicenna.{Library, Connection, next_price, is_cold, calculate, warm_up, new_estimate}

module _ {F S : Type 0} ⦃d : Double F⦄ (lib : Library F S) where
  -- The connection after the library was given so many prices.
  unfoldable pub fed : ℕ → Bool → F → Connection F S → Connection F S
  fed zero invert val c = c
  fed (suc n) invert val c =
      let price = next_price invert val in fed n (not invert) price (calculate lib price c)

  warm_up-warm :
      (n fuel : ℕ) (invert : Bool) (val : F) (c : Connection F S)
      → n ≤ fuel
      → is_cold (fed n invert val c) ≡ false
      → (w : Connection F S) × (warm_up lib fuel invert val c ≡ some w)
  unfolding warm_up fed
  warm_up-warm zero zero invert val c le warm = (c, ground arith)
  warm_up-warm zero (suc fuel) invert val c le warm = (c, ground arith)
  warm_up-warm (suc n) zero invert val c le warm = ground arith
  warm_up-warm (suc n) (suc fuel) invert val c le warm = elim (Bool-cases (is_cold c)) [
    | inl cold ↦
        let price = next_price invert val in
        let (w, e) =
          warm_up-warm n fuel (not invert) price (calculate lib price c) (omega arith) warm in
        (w, ground (arith, e))
    | inr started ↦ (c, ground arith)
  ]

module _ {F S : Type 0} ⦃d : Double F⦄ (lib : Library F S) where
  open d use {lt}

  -- The answers to calls one after the other.
  unfoldable pub estimates : ℕ → List F → Connection F S → Option (List F × Connection F S)
  estimates fuel [] c = some ([], c)
  estimates fuel (latest ∷ rest) c = elim (new_estimate lib fuel latest c) [
    | none ↦ none
    | some (e, u) ↦ elim (estimates fuel rest u) [ none ↦ none | some (es, v) ↦ some (e ∷ es, v) ]
  ]

  -- The same of a connection that has left its start: for each positive price the library's estimate of
  -- that price alone, and 0 for the others.
  unfoldable pub direct : List F → Connection F S → List F × Connection F S
  direct [] c = ([], c)
  direct (latest ∷ rest) c =
      let u = if lt zero_point latest then calculate lib latest c else c in
      let e = if lt zero_point latest then u.price_estimate else zero_point in
      let (es, v) = direct rest u in (e ∷ es, v)

  estimates-direct :
      (fuel : ℕ) (ps : List F) (c : Connection F S)
      → c.startup ≡ false
      → estimates fuel ps c ≡ some (direct ps c)
  unfolding estimates direct new_estimate warm_up calculate
  estimates-direct fuel [] c started = refl
  estimates-direct zero (latest ∷ rest) c started =
      let u = if lt zero_point latest then calculate lib latest c else c in
      ground (arith, estimates-direct zero rest u)
  estimates-direct (suc fuel) (latest ∷ rest) c started =
      let u = if lt zero_point latest then calculate lib latest c else c in
      ground (arith, estimates-direct (suc fuel) rest u)

  -- A call for a positive price ends: if the library's estimate is positive after `n` of the prices
  -- that the loop tries, fuel for `n` rounds is enough. The connection has then left its start: any
  -- later calls, one after the other and without fuel for a round of the loop, end, and answer for
  -- each positive price the library's estimate of that price alone, and 0 for the others.
  pub new_estimate-ends :
      (n fuel : ℕ) (latest : F) (later : List F) (c : Connection F S)
      → lt zero_point latest ≡ true
      → n ≤ fuel
      → is_cold (fed lib n true latest c) ≡ false
      → (u : Connection F S) × (new_estimate lib fuel latest c ≡ some (u.price_estimate, u))
        × (u.startup ≡ false)
        × (estimates 0 later u ≡ some (direct later u))
  unfolding new_estimate
  new_estimate-ends n fuel latest later c positive le warm =
      let (w, e) = warm_up-warm lib n fuel true latest c le warm in
      let u = record (calculate lib latest w) { startup = false } in
      (u, ground (arith, e), refl, estimates-direct 0 later u refl)
