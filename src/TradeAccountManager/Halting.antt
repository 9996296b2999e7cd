-- ===== src/TradeAccountManager/Halting.antt =====
-- What the commands for all accounts reach.
use tradingapp.Prelude.{ℕ, ◌≤◌, ◌≡◌, false, Option, some, List, [], ◌∷◌, map}
use tradingapp.Double.{Double}
use tradingapp.OrderAccount.{Gateway}
use tradingapp.TradeAccount.State.{TradeAccount}
use tradingapp.TradeInstance.State.{SymbolStamp, TradeInstance}
use tradingapp.TradeCase.Owned.{OwnedCase}
use tradingapp.TradeInstance.Selection.{Thread}
use tradingapp.TradeInstance.Processing.{market, events}
use tradingapp.TradeAccountManager.{Accounts, TradeAccountManager}

-- A predicate of each value of a map.
abbrev pub AllValues : {A : Type 0} → (A → Type 0) → List (ℕ × A) → Type 0
AllValues P [] = 0 ≤ 0
AllValues P ((_, a) ∷ rest) = P a × AllValues P rest

-- Every instance of every account.
abbrev pub AllInstances : {F : Type 0} → (TradeInstance F → Type 0) → Accounts F → Type 0
AllInstances P accounts = AllValues (AllValues P) accounts

module _ {F : Type 0} ⦃d : Double F⦄ (gw : Gateway F) (wake : TradeAccount F → TradeAccount F)
    (owned : Option (OwnedCase F)) where
  -- The events leave an instance, which owns the case, and its case as they are; its thread goes on.
  abbrev pub StaysPut : List (SymbolStamp F) → TradeInstance F → Type 0
  StaysPut stamps t =
      let th : Thread F = record { instance = t; owned = owned } in
      events gw wake (map market stamps) th ≡ some (th, false)
