-- ===== src/SymbolManager.antt =====
-- manager/SymbolManager.{h,cpp}: the market's prices and quotes go to the symbols of all users that
-- have the name, unless the user has stopped the name or all of them. A name is a number here, which
-- stands for a text that is only compared.
mod Frozen
mod Tests
use tradingapp.Prelude.{
  ℕ, Bool, true, false, not, ◌||◌, Option, none, some, List, [], ◌∷◌, ◌++◌, map, lookup, emplace,
  update, if◌then◌else◌,
}
use tradingapp.Double.{Double}
use tradingapp.Symbol.{Symbol, Quote, update_price, update_quote}

-- `name` is the key, and `last_updated` is left out, as nothing reads it. The pointers are to symbols
-- of different users.
pub record SymbolInfo (F : Type 0) : Type 0 where
  pub symbols : List (Symbol F)
  pub this_enable : Bool

-- `all_enable` is the static member of `SymbolInfo`.
pub record SymbolManager (F : Type 0) : Type 0 where
  pub all_enable : Bool
  pub symbol_hash : List (ℕ × SymbolInfo F)

-- The commands `ss` and `rs`, with `-a` or with a name.
pub data SymbolCommand : Type 0 where
  stop_all restart_all : SymbolCommand
  stop_name restart_name : ℕ → SymbolCommand

pub data ManagerEvent (F : Type 0) : Type 0 where
  price_of : ℕ → F → ManagerEvent F
  quote_of : ℕ → Quote F → ManagerEvent F
  told : SymbolCommand → ManagerEvent F

module _ {F : Type 0} where
  -- A symbol of a user joins those of its name.
  unfoldable pub register_symbol : ℕ → Symbol F → SymbolManager F → SymbolManager F
  register_symbol name s m =
      let known = emplace name (record { symbols = []; this_enable = true }) m.symbol_hash in
      elim (lookup name known) [
        | none ↦ m
        | some info ↦ record m {
          symbol_hash = update name (record info { symbols = info.symbols ++ s ∷ [] }) known;
        }
      ]

  -- The answer is none for an unknown name, whose null pointer is read.
  unfoldable pub forward : ℕ → (Symbol F → Symbol F) → SymbolManager F → Option (SymbolManager F)
  forward name change m = elim (lookup name m.symbol_hash) [
    | none ↦ none
    | some info ↦ some (
        if not m.all_enable || not info.this_enable then m else record m {
          symbol_hash =
              update name (record info { symbols = map change info.symbols }) m.symbol_hash;
        })
  ]

  -- An unknown name is passed over.
  unfoldable pub enable_name : Bool → ℕ → SymbolManager F → SymbolManager F
  enable_name enable name m = elim (lookup name m.symbol_hash) [
    | none ↦ m
    | some info ↦ record m {
      symbol_hash = update name (record info { this_enable = enable }) m.symbol_hash;
    }
  ]

  unfoldable pub command : SymbolCommand → SymbolManager F → SymbolManager F
  unfolding enable_name
  command stop_all m = record m { all_enable = false }
  command restart_all m = record m { all_enable = true }
  command (stop_name name) m = enable_name false name m
  command (restart_name name) m = enable_name true name m

module _ {F : Type 0} ⦃d : Double F⦄ where
  abbrev pub manager_update_price : ℕ → F → SymbolManager F → Option (SymbolManager F)
  manager_update_price name price m = forward name (update_price price) m

  abbrev pub manager_update_quote : ℕ → Quote F → SymbolManager F → Option (SymbolManager F)
  manager_update_quote name q m = forward name (update_quote q) m

  unfoldable pub manager_step : ManagerEvent F → SymbolManager F → Option (SymbolManager F)
  unfolding forward command
  manager_step (price_of name price) m = manager_update_price name price m
  manager_step (quote_of name q) m = manager_update_quote name q m
  manager_step (told c) m = some (command c m)

  unfoldable pub manager_run : List (ManagerEvent F) → SymbolManager F → Option (SymbolManager F)
  manager_run [] m = some m
  manager_run (e ∷ es) m = elim (manager_step e m) [ none ↦ none | some u ↦ manager_run es u ]
