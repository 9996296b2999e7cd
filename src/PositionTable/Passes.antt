-- ===== src/PositionTable/Passes.antt =====
-- One closing loop of `recordClosePosition`: how many shares it closes.
use tradingapp.Prelude.{
  ℕ, ◌+◌, ◌-◌, ◌≤◌, ◌≡◌, refl, Bool, true, false, ◌⊎◌, inl, inr, List, [], ◌∷◌, arith, All,
  if◌then◌else◌, ◌==◌, Bool-cases,
}
use tradingapp.Prelude.Word.{sub32_small}
use tradingapp.Double.{Double}
use tradingapp.PositionTable.{PositionRecord, close_pass, keep, set_close_info}
use tradingapp.PositionTable.Sizes.{open_shares, closed_shares, IsOpen, IsSized}

module _ {F : Type 0} where
  -- The first records are open and hold `n` shares.
  abbrev pub Covers : List (PositionRecord F) → ℕ → Type 0
  Covers [] n = n ≡ 0
  Covers (r ∷ rs) n = (n ≡ 0) ⊎ (IsOpen r × Covers rs (n - r.open_size))

  pub Covers-zero : (rs : List (PositionRecord F)) (n : ℕ) → n ≡ 0 → Covers rs n
  Covers-zero [] n h = h
  Covers-zero (r ∷ rs) n h = inl h

  pub Covers-eq : (rs : List (PositionRecord F)) (m n : ℕ) → m ≡ n → Covers rs m → Covers rs n
  Covers-eq rs m n e c = rw e at c

module _ {F : Type 0} (picks : PositionRecord F → Bool) where
  abbrev pub PicksOpen : PositionRecord F → Type 0
  PicksOpen r = picks r ≡ true → IsOpen r

  -- The shares in the records that the loop's test picks.
  abbrev pub picked_shares : List (PositionRecord F) → ℕ
  picked_shares [] = 0
  picked_shares (r ∷ rs) = (if picks r then r.open_size else 0) + picked_shares rs

  -- Once the walk has met a record that is picked, all later ones are.
  abbrev pub IsSplit : List (PositionRecord F) → Type 0
  IsSplit [] = Unit
  IsSplit (r ∷ rs) = (picks r ≡ true → All (λ x. picks x ≡ true) rs) × IsSplit rs

  pub picked_shares-open :
      (rs : List (PositionRecord F))
      → All IsOpen rs
      → All (λ x. picks x ≡ true) rs
      → picked_shares rs ≡ open_shares rs
  picked_shares-open [] o p = refl
  picked_shares-open (r ∷ rs) (o, os) (p, ps) = ground (arith, picked_shares-open rs os ps)

module _ {F : Type 0} ⦃d : Double F⦄ (picks : PositionRecord F → Bool) (id : ℕ)
    (price average : F) where
  pub close_pass-shares :
      (rs : List (PositionRecord F)) (left : ℕ) (pnl : F)
      → All IsSized rs
      → All (PicksOpen picks) rs
      → let (rs', left', _) = close_pass picks id price average rs left pnl in
        (left' ≤ left)
        × (open_shares rs' + left ≡ open_shares rs + left')
        × (closed_shares rs' + left' ≡ closed_shares rs + left)
  unfolding close_pass
  close_pass-shares [] left pnl z h = (omega arith, omega arith, omega arith)
  close_pass-shares (r ∷ rs) left pnl (z, zs) (h, hs) = ground (
    arith,
    h,
    sub32_small r.open_size left,
    close_pass-shares rs left pnl zs hs,
    close_pass-shares rs (left - r.open_size)
        (d.add pnl (set_close_info r id r.open_size price average).pnl) zs hs,
  )

  -- A loop on any records takes each share from at most one open record, so it never frees more.
  pub close_pass-ge :
      (rs : List (PositionRecord F)) (left : ℕ) (pnl : F)
      → All IsSized rs
      → let (rs', left', _) = close_pass picks id price average rs left pnl in
        open_shares rs + left' ≤ open_shares rs' + left
  unfolding close_pass
  close_pass-ge [] left pnl z = omega arith
  close_pass-ge (r ∷ rs) left pnl (z, zs) = ground (
    arith,
    sub32_small r.open_size left,
    close_pass-ge rs left pnl zs,
    close_pass-ge rs (left - r.open_size)
        (d.add pnl (set_close_info r id r.open_size price average).pnl) zs,
  )

  pub close_pass-IsSized :
      (rs : List (PositionRecord F)) (left : ℕ) (pnl : F)
      → All IsSized rs
      → All IsSized (close_pass picks id price average rs left pnl).0
  unfolding close_pass
  close_pass-IsSized [] left pnl z = tt
  close_pass-IsSized (r ∷ rs) left pnl (z, zs) = ground (
    arith,
    sub32_small r.open_size left,
    close_pass-IsSized rs left pnl zs,
    close_pass-IsSized rs (left - r.open_size)
        (d.add pnl (set_close_info r id r.open_size price average).pnl) zs,
  )

  pub close_pass-left :
      (rs : List (PositionRecord F)) (left : ℕ) (pnl : F)
      → (close_pass picks id price average rs left pnl).1 ≡ left - picked_shares picks rs
  unfolding close_pass
  close_pass-left [] left pnl = omega arith
  close_pass-left (r ∷ rs) left pnl = ground (
    arith,
    close_pass-left rs left pnl,
    close_pass-left rs (left - r.open_size)
        (d.add pnl (set_close_info r id r.open_size price average).pnl),
  )

  close_pass-skip :
      (r : PositionRecord F) (rs : List (PositionRecord F)) (left : ℕ) (pnl : F)
      → picks r ≡ false
      → close_pass picks id price average (r ∷ rs) left pnl ≡ (
          if left == 0
          then (r ∷ rs, left, pnl)
          else keep r (close_pass picks id price average rs left pnl))
  unfolding close_pass
  close_pass-skip r rs left pnl e = rw e

  -- What is left after a walk that picks a final stretch is held by the records that it passed over.
  pub close_pass-Covers :
      (rs : List (PositionRecord F)) (left extra : ℕ) (pnl : F)
      → All IsOpen rs
      → IsSplit picks rs
      → left ≤ open_shares rs + extra
      → let (rs', left', _) = close_pass picks id price average rs left pnl in
        Covers rs' (left' - extra)
  close_pass-Covers [] left extra pnl o s h =
      Covers-zero _ _ (omega (arith, close_pass-left [] left pnl))
  close_pass-Covers (r ∷ rs) left extra pnl (o, os) (s, ss) h = elim (Bool-cases (picks r)) [
    | inl e ↦
        Covers-zero _ _
          (ground (arith, close_pass-left (r ∷ rs) left pnl, picked_shares-open picks rs os (s e)))
    | inr e ↦
        let rest : Covers _ _ =
          close_pass-Covers rs left (extra + r.open_size) pnl os ss (ground arith) in
        rw (close_pass-skip r rs left pnl e) (elim (Bool-cases (left == 0)) [
          | inl done ↦ rw done (inl (ground arith))
          | inr more ↦ rw more (inr (o, Covers-eq _ _ _ (omega arith) rest))
        ])
  ]

-- A loop that picks every record closes what the first records cover, and nothing else.
module _ {F : Type 0} ⦃d : Double F⦄ (id : ℕ) (price average : F) where
  pub close_pass-covered :
      (rs : List (PositionRecord F)) (left : ℕ) (pnl : F)
      → All IsSized rs
      → Covers rs left
      → let (rs', left', _) = close_pass (λ _. true) id price average rs left pnl in
        (left' ≡ 0)
        × (open_shares rs' + left ≡ open_shares rs)
        × (closed_shares rs' ≡ closed_shares rs + left)
  unfolding close_pass
  close_pass-covered [] left pnl z c = (c, omega arith, omega arith)
  close_pass-covered (r ∷ rs) left pnl (z, zs) c = ground (
    arith,
    sub32_small r.open_size left,
    close_pass-covered rs (left - r.open_size)
        (d.add pnl (set_close_info r id r.open_size price average).pnl) zs,
  )
