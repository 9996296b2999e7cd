-- ===== src/TradeInstance/Processing.antt =====
-- The thread of an instance, `triggerProcessing`, with the trade case that the instance owns. A call
-- that has not come to an end, as it waits for the exchange, answers none. The copies that go to the
-- database are not modelled.
use tradingapp.Prelude.{
  Bool, true, false, not, ◌&&◌, ◌||◌, Option, none, some, List, [], ◌∷◌, if◌then◌else◌,
}
use tradingapp.Double.{Double, zero_point}
use tradingapp.OrderAccount.{Gateway}
use tradingapp.TradeAccount.State.{TradeAccount}
use tradingapp.TradeInstance.State.{
  CaseType, panic_close, soft_close, CaseState, enable_panic_close, disable_panic_close,
  enable_soft_close, disable_soft_close, resume, pause, toggle_avicenna, state_failed, is_done,
  SymbolStamp, TradeInstance, read_symbol_data,
}
use tradingapp.TradeCase.Owned.{OwnedCase, type_of, state_of, run_in, run_owned_case}
use tradingapp.TradeInstance.Selection.{Thread, replace_case, special_cases, trigger_selection}

-- What a user asks for from another thread.
pub data Command : Type 0 where
  ask_panic_close ask_no_panic_close ask_soft_close ask_no_soft_close ask_resume ask_pause
        ask_toggle :
      Command

-- What an instance meets, in order: new data of its symbol, and between two turns a command, or
-- messages of the exchange, after which its short and its long account are others.
pub data Event (F : Type 0) : Type 0 where
  market : SymbolStamp F → Event F
  command : Command → Event F
  exchange : TradeAccount F → TradeAccount F → Event F

abbrev pub is_failed : CaseState → Bool
is_failed state_failed = true
is_failed _ = false

abbrev pub is_special : CaseType → Bool
is_special panic_close = true
is_special soft_close = true
is_special _ = false

module _ {F : Type 0} where
  abbrev pub going_on : Option (Thread F) → Option (Thread F × Bool)
  going_on none = none
  going_on (some th) = some (th, false)

  -- Going on with the events, unless a turn has ended the thread.
  abbrev pub after_turn :
      Option (Thread F × Bool) → (Thread F → Option (Thread F × Bool)) → Option (Thread F × Bool)
  after_turn none rest = none
  after_turn (some (th, true)) rest = some (th, true)
  after_turn (some (th, false)) rest = rest th

module _ {F : Type 0} ⦃d : Double F⦄ (gw : Gateway F) (wake : TradeAccount F → TradeAccount F) where
  -- What the state that a case has reached means for the thread, which the flag tells to end.
  unfoldable pub settle_case : OwnedCase F → TradeInstance F → Option (Thread F × Bool)
  unfolding replace_case
  settle_case c t =
      let th : Thread F = record { instance = t; owned = some c } in
      let over = record th { instance = record t { previous_case = type_of c } } in
      if is_special (type_of c) && is_done (state_of c)
      then some (th, true)
      else if (is_done (state_of c) || is_failed (state_of c)) && not (is_special (type_of c))
      then going_on (replace_case gw wake none over)
      else some (th, false)

  abbrev pub after_run : Option (OwnedCase F × TradeInstance F) → Option (Thread F × Bool)
  after_run none = none
  after_run (some (c, t)) = settle_case c (record t { last_state = state_of c })

  -- Running the case that is owned, if there is one.
  unfoldable pub run_case : Thread F → Option (Thread F × Bool)
  unfolding settle_case run_in
  run_case th = elim th.owned [
    | none ↦ some (th, false)
    | some c ↦ after_run (run_owned_case gw wake c th.instance)
  ]

  -- The case that the turn runs: a special one, or else one that the trigger selects.
  abbrev pub after_special : Option (Thread F) → Bool → Option (Thread F)
  after_special none special = none
  after_special (some th) special =
      let selected = trigger_selection gw wake th in if special then some th else selected

  unfoldable pub select : Thread F → Option (Thread F)
  unfolding special_cases trigger_selection
  select th = let (next, special) = special_cases gw wake th in after_special next special

  abbrev pub run_selected : Option (Thread F) → Option (Thread F × Bool)
  run_selected none = none
  run_selected (some th) = run_case th

  -- One turn of the loop with the data it reads.
  unfoldable pub turn : SymbolStamp F → Thread F → Option (Thread F × Bool)
  unfolding select
  turn stamp th =
      let t = read_symbol_data stamp th.instance in
      let priced = record t { trade_price = t.price_estimate } in
      if not th.instance.is_enable
      then some (th, false)
      else if d.le t.price_estimate zero_point
      then some (record th { instance = t }, false)
      else run_selected (select (record th { instance = priced }))

module _ {F : Type 0} where
  abbrev pub obey : Command → TradeInstance F → TradeInstance F
  obey ask_panic_close t = enable_panic_close t
  obey ask_no_panic_close t = disable_panic_close t
  obey ask_soft_close t = enable_soft_close t
  obey ask_no_soft_close t = disable_soft_close t
  obey ask_resume t = resume t
  obey ask_pause t = pause t
  obey ask_toggle t = toggle_avicenna t

  -- An event between two turns.
  abbrev pub meet : Command → Thread F → Thread F
  meet c th = record th { instance = obey c th.instance }

  abbrev pub exchanged : TradeAccount F → TradeAccount F → Thread F → Thread F
  exchanged short long th = record th {
    instance = record th.instance { short_acc = short; long_acc = long };
  }

module _ {F : Type 0} ⦃d : Double F⦄ (gw : Gateway F) (wake : TradeAccount F → TradeAccount F) where
  -- The thread after a sequence of events, as long as no turn ends it.
  unfoldable pub events : List (Event F) → Thread F → Option (Thread F × Bool)
  unfolding turn
  events [] th = some (th, false)
  events (market stamp ∷ es) th =
      let rest = λ (u : Thread F). events es u in after_turn (turn gw wake stamp th) rest
  events (command c ∷ es) th = events es (meet c th)
  events (exchange short long ∷ es) th = events es (exchanged short long th)
