-- ===== src/TradeAccountManager.antt =====
-- manager/TradeAccountManager.{h,cpp}, and the functions of the accounts in config/TradingConfig.h that
-- it calls: the user's commands reach the instances. An account's id and a symbol's name are numbers
-- here, which stand for texts that are only compared. `CancelAllOrders` of the exchange's library,
-- which `stop` calls for both order accounts, is left out: its effects come as messages.
mod Halting
mod Tests
use tradingapp.Prelude.{
  ℕ, Bool, true, false, Option, none, some, List, [], ◌∷◌, ◌==◌, if◌then◌else◌,
}
use tradingapp.OrderAccount.{Gateway}
use tradingapp.TradeAccount.State.{TradeAccount}
use tradingapp.TradeAccount.Changes.{cancel_all}
use tradingapp.TradeInstance.State.{
  TradeInstance, start_action, enable_panic_close, disable_panic_close, enable_soft_close,
  disable_soft_close, toggle_avicenna,
}

-- An argument of a command: the empty text, `-a`, `-d`, or the id of an account or name of a symbol.
pub data Word : Type 0 where
  empty_word all_word disable_word : Word
  name_word : ℕ → Word

-- The first word of a command: `st`, `rt`, `pc`, `sc`, `av`, or one that is not handled.
pub data Verb : Type 0 where
  stop_verb restart_verb panic_verb soft_verb toggle_verb other_verb : Verb

-- The instances of an account by their symbols, and the accounts by their ids.
abbrev pub Instances : Type 0 → Type 0
Instances F = List (ℕ × TradeInstance F)

abbrev pub Accounts : Type 0 → Type 0
Accounts F = List (ℕ × Instances F)

-- `all_enable` is the static member of `TradeAccount`.
pub record TradeAccountManager (F : Type 0) : Type 0 where
  pub all_enable : Bool
  pub accounts : Accounts F

-- Equality with a name.
abbrev pub is_word : Word → ℕ → Bool
is_word (name_word n) id = n == id
is_word _ id = false

-- The empty text stands for every name.
abbrev pub matches : Word → ℕ → Bool
matches empty_word id = true
matches w id = is_word w id

-- A loop over a map, which is none once a wait for the exchange has not ended.
unfoldable pub each : {A : Type 0} → (ℕ → A → Option A) → List (ℕ × A) → Option (List (ℕ × A))
each f [] = some []
each f ((id, a) ∷ rest) = elim (f id a) [
  | none ↦ none
  | some b ↦ elim (each f rest) [ none ↦ none | some bs ↦ some ((id, b) ∷ bs) ]
]

module _ {F : Type 0} where
  abbrev pub with_accounts :
      TradeAccountManager F → Option (Accounts F) → Option (TradeAccountManager F)
  with_accounts m none = none
  with_accounts m (some accounts) = some (record m { accounts = accounts })

  -- The instances of an account that have a symbol, or all.
  abbrev pub on_symbol :
      Word → (TradeInstance F → TradeInstance F) → Instances F → Option (Instances F)
  on_symbol symbol change instances =
      each (λ name t. some (if matches symbol name then change t else t)) instances

  abbrev pub on_account :
      Word → (Instances F → Option (Instances F)) → Accounts F → Option (Accounts F)
  on_account account change accounts =
      each (λ id a. if matches account id then change a else some a) accounts

  unfoldable pub panic_close :
      Word → Word → Bool → TradeAccountManager F → Option (TradeAccountManager F)
  unfolding each
  panic_close account symbol enable m =
      let change = if enable then enable_panic_close else disable_panic_close in
      with_accounts m (on_account account (on_symbol symbol change) m.accounts)

  unfoldable pub soft_close :
      Word → Word → Bool → TradeAccountManager F → Option (TradeAccountManager F)
  unfolding each
  soft_close account symbol enable m =
      let change = if enable then enable_soft_close else disable_soft_close in
      with_accounts m (on_account account (on_symbol symbol change) m.accounts)

  unfoldable pub avicenna_toggle : Word → TradeAccountManager F → Option (TradeAccountManager F)
  unfolding each
  avicenna_toggle account m =
      with_accounts m (on_account account (on_symbol empty_word toggle_avicenna) m.accounts)

  -- `-d` reads the argument after it, and the answer is none where there is none.
  unfoldable pub close_command :
      (Word → Word → Bool → TradeAccountManager F → Option (TradeAccountManager F))
      → List Word
      → TradeAccountManager F
      → Option (TradeAccountManager F)
  close_command close [] m = some m
  close_command close (empty_word ∷ _) m = some m
  close_command close (disable_word ∷ []) m = none
  close_command close (disable_word ∷ all_word ∷ _) m = close empty_word empty_word false m
  close_command close (disable_word ∷ account ∷ symbol ∷ []) m = close account symbol false m
  close_command close (disable_word ∷ account ∷ _) m = close account empty_word false m
  close_command close (all_word ∷ _) m = close empty_word empty_word true m
  close_command close (account ∷ symbol ∷ []) m = close account symbol true m
  close_command close (account ∷ _) m = close account empty_word true m

  unfoldable pub toggle_command : List Word → TradeAccountManager F → Option (TradeAccountManager F)
  toggle_command [] m = some m
  toggle_command (all_word ∷ _) m = avicenna_toggle empty_word m
  toggle_command (account ∷ _) m = avicenna_toggle account m

module _ {F : Type 0} (gw : Gateway F) (wake : TradeAccount F → TradeAccount F) where
  -- `TradeInstance::stopAction`
  unfoldable pub stop_action : TradeInstance F → Option (TradeInstance F)
  stop_action t = elim (cancel_all gw wake t.short_acc) [
    | none ↦ none
    | some short ↦ elim (cancel_all gw wake t.long_acc) [
      | none ↦ none
      | some long ↦ some (record t { short_acc = short; long_acc = long; is_enable = false })
    ]
  ]

  -- Stopping or starting an instance.
  abbrev pub set_action : Bool → TradeInstance F → Option (TradeInstance F)
  set_action true t = some (start_action t)
  set_action false t = stop_action t

  abbrev pub set_instances : Bool → Instances F → Option (Instances F)
  set_instances enable instances = each (λ name t. set_action enable t) instances

  abbrev pub set_symbol : Bool → Word → Instances F → Option (Instances F)
  set_symbol enable symbol instances =
      each (λ name t. if is_word symbol name then set_action enable t else some t) instances

  abbrev pub set_account :
      (Instances F → Option (Instances F)) → Word → Accounts F → Option (Accounts F)
  set_account change account accounts =
      each (λ id a. if is_word account id then change a else some a) accounts

  unfoldable pub set_all : Bool → TradeAccountManager F → Option (TradeAccountManager F)
  unfolding each stop_action
  set_all enable m =
      with_accounts (record m { all_enable = enable })
        (each (λ id a. set_instances enable a) m.accounts)

  unfoldable pub action_command :
      Bool → List Word → TradeAccountManager F → Option (TradeAccountManager F)
  unfolding each stop_action
  action_command enable [] m = some m
  action_command enable (empty_word ∷ _) m = some m
  action_command enable (all_word ∷ _) m = set_all enable m
  action_command enable (account ∷ symbol ∷ []) m =
      with_accounts m (set_account (set_symbol enable symbol) account m.accounts)
  action_command enable (account ∷ _) m =
      with_accounts m (set_account (set_instances enable) account m.accounts)

  -- `operator()`, with the arguments after the first word.
  unfoldable pub obey_words :
      Verb → List Word → TradeAccountManager F → Option (TradeAccountManager F)
  obey_words stop_verb args m = action_command false args m
  obey_words restart_verb args m = action_command true args m
  obey_words panic_verb args m = close_command panic_close args m
  obey_words soft_verb args m = close_command soft_close args m
  obey_words toggle_verb args m = toggle_command args m
  obey_words other_verb args m = some m
