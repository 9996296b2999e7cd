-- ===== src/TradeAccountManager/Tests.antt =====
-- A manager of two accounts, whose instances the user stops.
use tradingapp.Prelude.{true, none, some, [], ◌∷◌}
use tradingapp.Prelude.Int.{ℤ}
use tradingapp.Double.Units.{int_double}
use tradingapp.TradeAccount.Samples.{willing, acknowledging}
use tradingapp.TradeInstance.State.{long_side, trigger_positive}
use tradingapp.TradeCase.{new_base}
use tradingapp.TradeCase.Owned.{OwnedCase, owned_7}
use tradingapp.TradeInstance.Samples.{started, quoted}
use tradingapp.TradeAccountManager.{all_word, stop_verb, TradeAccountManager, obey_words}

-- A case 7 that has not started.
abbrev waiting_case : OwnedCase ℤ
waiting_case = owned_7 (new_base long_side trigger_positive)

abbrev two_accounts : TradeAccountManager ℤ
two_accounts = record {
  all_enable = true;
  accounts = (1, (1, started) ∷ (2, quoted) ∷ []) ∷ (2, (1, quoted) ∷ []) ∷ [];
}

abbrev stopped : TradeAccountManager ℤ
stopped = elim (obey_words willing acknowledging stop_verb (all_word ∷ []) two_accounts) [
  | none ↦ two_accounts
  | some m ↦ m
]
