-- ===== src/SymbolManager/Frozen.antt =====
-- A symbol whose name the user has stopped keeps its data.
use tradingapp.Prelude.{
  ℕ, ◌≤◌, ◌≡◌, refl, Bool, true, false, some, List, [], ◌∷◌, lookup, lookup-update, ◌==◌, map,
  arith, Bool-cases, Option-cases, inl, inr,
}
use tradingapp.Double.{Double}
use tradingapp.Symbol.{Symbol, update_price, update_quote}
use tradingapp.SymbolManager.{
  SymbolInfo, SymbolManager, stop_all, restart_all, stop_name, restart_name, ManagerEvent, price_of,
  quote_of, told, forward, enable_name, manager_step, manager_run,
}

module _ {F : Type 0} where
  -- The event does not restart the name.
  abbrev pub IsNoRestart : ℕ → ManagerEvent F → Type 0
  IsNoRestart name (told (restart_name other)) = (other == name) ≡ false
  IsNoRestart name _ = 0 ≤ 0

  abbrev pub NoRestarts : ℕ → List (ManagerEvent F) → Type 0
  NoRestarts name [] = 0 ≤ 0
  NoRestarts name (e ∷ es) = IsNoRestart name e × NoRestarts name es

  -- The manager knows the name with the data.
  abbrev pub Holds : ℕ → SymbolInfo F → SymbolManager F → Type 0
  Holds name info m = lookup name m.symbol_hash ≡ some info

  forward-Holds :
      (name other : ℕ) (change : Symbol F → Symbol F) (info : SymbolInfo F) (m u : SymbolManager F)
      → info.this_enable ≡ false
      → Holds name info m
      → forward other change m ≡ some u
      → Holds name info u
  unfolding forward
  forward-Holds name other change info m u stopped h e =
      elim (Option-cases (lookup other m.symbol_hash)) [
        | inl unknown ↦ ground arith
        | inr (known, found) ↦
            let changed = record known { symbols = map change known.symbols } in
            let kept = lookup-update other name changed m.symbol_hash in
            elim (Bool-cases (other == name)) [
              | inl same ↦ ground (arith, found, kept)
              | inr differs ↦ ground (arith, found, kept)
            ]
      ]

  enable_name-Holds :
      (name other : ℕ) (enable : Bool) (info : SymbolInfo F) (m : SymbolManager F)
      → info.this_enable ≡ enable
      → Holds name info m
      → Holds name info (enable_name enable other m)
  unfolding enable_name
  enable_name-Holds name other enable info m same h =
      elim (Option-cases (lookup other m.symbol_hash)) [
        | inl unknown ↦ ground arith
        | inr (known, found) ↦
            let kept =
              lookup-update other name (record known { this_enable = enable }) m.symbol_hash in
            ground (arith, found, kept)
      ]

  enable_other-Holds :
      (name other : ℕ) (enable : Bool) (info : SymbolInfo F) (m : SymbolManager F)
      → (other == name) ≡ false
      → Holds name info m
      → Holds name info (enable_name enable other m)
  unfolding enable_name
  enable_other-Holds name other enable info m differs h =
      elim (Option-cases (lookup other m.symbol_hash)) [
        | inl unknown ↦ ground arith
        | inr (known, found) ↦
            let kept =
              lookup-update other name (record known { this_enable = enable }) m.symbol_hash in
            ground (arith, found, kept)
      ]

  enable_same-Holds :
      (name : ℕ) (enable : Bool) (info : SymbolInfo F) (m : SymbolManager F)
      → Holds name info m
      → Holds name (record info { this_enable = enable }) (enable_name enable name m)
  unfolding enable_name
  enable_same-Holds name enable info m h =
      let kept = lookup-update name name (record info { this_enable = enable }) m.symbol_hash in
      ground (arith, kept)

module _ {F : Type 0} ⦃d : Double F⦄ where
  step-Holds :
      (e : ManagerEvent F) (name : ℕ) (info : SymbolInfo F) (m u : SymbolManager F)
      → info.this_enable ≡ false
      → IsNoRestart name e
      → Holds name info m
      → manager_step e m ≡ some u
      → Holds name info u
  unfolding manager_step
  step-Holds (price_of other price) name info m u stopped none_such h e =
      forward-Holds name other (update_price price) info m u stopped h e
  step-Holds (quote_of other q) name info m u stopped none_such h e =
      forward-Holds name other (update_quote q) info m u stopped h e
  step-Holds (told stop_all) name info m u stopped none_such h e = ground arith
  step-Holds (told restart_all) name info m u stopped none_such h e = ground arith
  step-Holds (told (stop_name other)) name info m u stopped none_such h e =
      ground (arith, enable_name-Holds name other false info m stopped h)
  step-Holds (told (restart_name other)) name info m u stopped none_such h e =
      ground (arith, enable_other-Holds name other true info m none_such h)

  run-Holds :
      (es : List (ManagerEvent F)) (name : ℕ) (info : SymbolInfo F) (m u : SymbolManager F)
      → info.this_enable ≡ false
      → NoRestarts name es
      → Holds name info m
      → manager_run es m ≡ some u
      → Holds name info u
  unfolding manager_run
  run-Holds [] name info m u stopped none_such h e = ground arith
  run-Holds (event ∷ es) name info m u stopped (first, rest) h e =
      elim (Option-cases (manager_step event m)) [
        | inl lost ↦ ground arith
        | inr (v, stepped) ↦
            let next = step-Holds event name info m v stopped first h stepped in
            run-Holds es name info v u stopped rest next (ground (arith, stepped))
      ]

  -- After a user has stopped a name, its symbols keep their data, whatever prices and quotes come and
  -- whatever else is stopped or restarted, even everything at once, as long as no command restarts
  -- that name.
  pub stop_name-freezes :
      (es : List (ManagerEvent F)) (name : ℕ) (info : SymbolInfo F) (m u : SymbolManager F)
      → Holds name info m
      → NoRestarts name es
      → manager_run (told (stop_name name) ∷ es) m ≡ some u
      → Holds name (record info { this_enable = false }) u
  unfolding manager_run manager_step
  stop_name-freezes es name info m u h none_such e =
      let stopped = enable_same-Holds name false info m h in
      run-Holds es name (record info { this_enable = false }) (enable_name false name m) u refl
        none_such stopped e
