-- ===== src/SymbolManager/Tests.antt =====
-- A manager of two names, one of which the user stops.
use tradingapp.Prelude.{refl, true, false, none, some, List, [], ◌∷◌, lookup, update, arith}
use tradingapp.Prelude.Int.{ℤ, pos}
use tradingapp.Double.Units.{int_double}
use tradingapp.Symbol.{Symbol}
use tradingapp.SymbolManager.{
  SymbolInfo, SymbolManager, restart_all, restart_name, stop_name, ManagerEvent, price_of, told,
  manager_step, manager_run,
}
use tradingapp.SymbolManager.Frozen.{Holds, stop_name-freezes}

abbrev symbol : Symbol ℤ
symbol = record {
  start_interval = false;
  open_price = pos 100;
  min_price = pos 100;
  max_price = pos 100;
  close_price = pos 100;
  open_price_prev = pos 98;
  min_price_prev = pos 97;
  max_price_prev = pos 99;
  close_price_prev = pos 99;
  now = record {
    price_estimate1 = pos 100;
    price_estimate2 = pos 100;
    instrument_skew = pos 0;
    bid_size = 200;
    bid_price = pos 99;
    ask_size = 200;
    ask_price = pos 101;
  };
  symbol_stack = [];
}

abbrev info : SymbolInfo ℤ
info = record { symbols = symbol ∷ symbol ∷ []; this_enable = true }

abbrev manager : SymbolManager ℤ
manager = record { all_enable = true; symbol_hash = (1, info) ∷ (2, info) ∷ [] }

abbrev session : List (ManagerEvent ℤ)
session =
    price_of 1 (pos 105)
    ∷ told (restart_name 2)
    ∷ price_of 2 (pos 107)
    ∷ told restart_all
    ∷ price_of 1 (pos 90)
    ∷ []

abbrev after_session : SymbolManager ℤ
after_session = elim (manager_run (told (stop_name 1) ∷ session) manager) [
  | none ↦ manager
  | some m ↦ m
]

stop_name-freezes_example : Holds 1 (record info { this_enable = false }) after_session
unfolding manager_run manager_step lookup update
stop_name-freezes_example =
    stop_name-freezes session 1 info manager after_session refl (ground arith) refl
