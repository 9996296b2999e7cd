-- ===== src/TradeInstance/Selection.antt =====
-- Which trade case an instance owns and runs: the trigger, the choice of a case, and the closes
-- that the user or the limit of live shares asks for.
use tradingapp.Prelude.{Bool, true, false, not, ◌&&◌, ◌||◌, Option, none, some, ltb, if◌then◌else◌}
use tradingapp.Prelude.Int.{ℤ, pos, ltb_ℤ, eqb_ℤ, to_u32}
use tradingapp.Double.{Double, zero_point}
use tradingapp.TradeAccount.State.{
  TradeAccount, delete_complete_positions, get_position, get_total_live_order_count,
}
use tradingapp.OrderAccount.{Gateway}
use tradingapp.TradeAccount.Changes.{cancel_all}
use tradingapp.TradeCase.Owned.{OwnedCase, owned_panic_close, owned_soft_close, new_case, owned_end}
use tradingapp.TradeInstance.State.{
  TriggerState, trigger_init, trigger_positive, trigger_negative, CaseType, case_none, case_4,
  case_hedge_current, case_9, case_10, panic_close, soft_close, state_init, long_side, short_side,
  TradeInstance, account_of, opposite_of, enable_panic_close,
}

-- An instance and the trade case that it owns.
pub record Thread (F : Type 0) : Type 0 where
  pub instance : TradeInstance F
  pub owned : Option (OwnedCase F)

module _ {F : Type 0} ⦃d : Double F⦄ where
  -- The closes, made before the instance has a current account.
  unfoldable pub new_close : CaseType → Option (OwnedCase F)
  new_close panic_close = some (
      owned_panic_close (record {
        state = state_init;
        send_price = zero_point;
        main_order_id = 0;
        close_size = 0;
        side = none;
      }))
  new_close soft_close = some (
      owned_soft_close (record {
        state = state_init;
        send_price = zero_point;
        main_order_id = 0;
        close_size = 0;
        side = none;
      }))
  new_close _ = none

  -- `TradeCaseFactory::create`. Without a current account only the two closes are asked for.
  unfoldable pub create : CaseType → TradeInstance F → Option (OwnedCase F)
  unfolding new_case new_close
  create type t = elim t.current [ none ↦ new_close type | some side ↦ new_case type side t ]

unfoldable pub is_none : {A : Type 0} → Option A → Bool
is_none none = true
is_none (some _) = false

unfoldable pub is_same_trigger : TriggerState → TriggerState → Bool
is_same_trigger trigger_init trigger_init = true
is_same_trigger trigger_positive trigger_positive = true
is_same_trigger trigger_negative trigger_negative = true
is_same_trigger _ _ = false

unfoldable pub is_init : TriggerState → Bool
is_init trigger_init = true
is_init _ = false

module _ {F : Type 0} ⦃d : Double F⦄ (gw : Gateway F) (wake : TradeAccount F → TradeAccount F) where
  -- `cancelAll` answers true, so that both accounts are asked.
  abbrev cancel_both : TradeInstance F → Option (TradeInstance F)
  cancel_both t = elim (cancel_all gw wake t.long_acc) [
    | none ↦ none
    | some long ↦ elim (cancel_all gw wake t.short_acc) [
      | none ↦ none
      | some short ↦ some (record t { long_acc = long; short_acc = short })
    ]
  ]

  abbrev after_cancel : Option (TradeInstance F) → Option (TradeInstance F)
  after_cancel none = none
  after_cancel (some u) =
      let v = record u {
        long_acc = delete_complete_positions u.long_acc;
        short_acc = delete_complete_positions u.short_acc;
      } in
      some (
        if eqb_ℤ (get_position v.long_acc) (get_position v.short_acc)
        then record v {
          wait_for_next_time_window = true;
          wait_for_next_time_window_avicenna = v.price_estimate;
        }
        else v)

  -- `TradeCase::~TradeCase`. The two accounts of the case are those of the instance.
  unfoldable pub destroy : TradeInstance F → Option (TradeInstance F)
  destroy t = after_cancel (if t.cancel_on_trigger then cancel_both t else some t)

module _ {F : Type 0} where
  -- Whether the case's own pointers to the accounts are null, as those of a close are that was made
  -- before the instance had a current account and has not started.
  abbrev pub is_adrift : OwnedCase F → Bool
  is_adrift (owned_panic_close c) = is_none c.side
  is_adrift (owned_soft_close c) = is_none c.side
  is_adrift _ = false

module _ {F : Type 0} ⦃d : Double F⦄ (gw : Gateway F) (wake : TradeAccount F → TradeAccount F) where
  -- The destructors of a case, that of its class first.
  unfoldable pub end_case : OwnedCase F → TradeInstance F → Option (TradeInstance F)
  unfolding destroy owned_end
  end_case c t = elim (owned_end c t) [
    | none ↦ none
    | some u ↦ let ended = destroy gw wake u in if is_adrift c then none else ended
  ]

  abbrev pub owning : Option (OwnedCase F) → Option (TradeInstance F) → Option (Thread F)
  owning new none = none
  owning new (some t) = some (record { instance = t; owned = new })

  -- Assigning to the pointer destroys the case that it owned.
  unfoldable pub replace_case : Option (OwnedCase F) → Thread F → Option (Thread F)
  unfolding end_case
  replace_case new th = elim th.owned [
    | none ↦ some (record th { owned = new })
    | some old ↦ owning new (end_case old th.instance)
  ]

module _ {F : Type 0} ⦃d : Double F⦄ where
  open d use {eq}

  -- Whether an equality waits for a new estimate.
  abbrev pub waits_for_estimate : TradeInstance F → Bool
  waits_for_estimate t =
      t.wait_for_next_time_window && not (eq t.wait_for_next_time_window_avicenna t.price_estimate)

  -- The type that `caseSelection` chooses by the positions of the current and of the opposite account.
  unfoldable pub select_type : ℤ → ℤ → TradeInstance F → CaseType
  select_type curr_pos oppo_pos t =
      if eqb_ℤ (pos 0) oppo_pos && eqb_ℤ (pos 0) curr_pos
      then case_4
      else if ltb_ℤ (pos 0) curr_pos && eqb_ℤ oppo_pos (pos 0)
      then case_9
      else if eqb_ℤ curr_pos oppo_pos && waits_for_estimate t
      then case_10
      else if ltb_ℤ curr_pos oppo_pos
      then case_hedge_current
      else case_none

  -- Choosing case 10 ends the wait for a new estimate.
  abbrev pub after_choice : CaseType → TradeInstance F → TradeInstance F
  after_choice case_10 t = record t { wait_for_next_time_window = false }
  after_choice _ t = t

module _ {F : Type 0} ⦃d : Double F⦄ (gw : Gateway F) (wake : TradeAccount F → TradeAccount F) where
  unfoldable pub case_selection : Thread F → Option (Thread F)
  unfolding replace_case create select_type
  case_selection th =
      let t = th.instance in
      elim t.current [
        | none ↦ some th
        | some side ↦
            let type =
              select_type (get_position (account_of side t)) (get_position (opposite_of side t))
                t in
            let u = after_choice type t in
            replace_case gw wake (create type u) (record th { instance = u })
      ]

module _ {F : Type 0} ⦃d : Double F⦄ where
  open d use {lt, le}

  avicenna_trigger : TradeInstance F → TriggerState
  avicenna_trigger t = elim t.avicenna_trigger_state [
    | trigger_init ↦
        if lt t.price_estimate t.bid_price
        then trigger_positive
        else if lt t.ask_price t.price_estimate
        then trigger_negative
        else trigger_init
    | trigger_positive ↦
        if le t.ask_price t.price_estimate then trigger_negative else trigger_positive
    | trigger_negative ↦
        if le t.price_estimate t.bid_price then trigger_positive else trigger_negative
  ]

  -- The trigger follows the direction in which the estimate moves.
  unfoldable pub next_trigger : TradeInstance F → TriggerState
  next_trigger t =
      if lt t.price_estimate_prev t.price_estimate
      then trigger_positive
      else if lt t.price_estimate t.price_estimate_prev
      then trigger_negative
      else t.trigger_state

  trigger_price : TriggerState → TradeInstance F → F
  trigger_price trigger_positive t = t.ask_price
  trigger_price trigger_negative t = t.bid_price
  trigger_price trigger_init t = zero_point

  -- The instance with its new trigger.
  unfoldable pub moved : TriggerState → TradeInstance F → TradeInstance F
  unfolding avicenna_trigger trigger_price
  moved trigger t = record t {
    avicenna_trigger_state = avicenna_trigger t;
    trigger_state = trigger;
    price_estimate_prev = t.price_estimate;
    trade_price = trigger_price trigger t;
  }

  -- Where the trigger is another than before: the accounts change their parts.
  unfoldable pub turned : TriggerState → TradeInstance F → TradeInstance F
  turned trigger t =
      let start = record t {
        prev_trigger_state = trigger;
        price_estimate_on_trigger = t.price_estimate;
        previous_case = case_none;
      } in
      elim trigger [
        | trigger_positive ↦ record start {
          current = some long_side;
          reference_price = t.bid_price;
        }
        | _ ↦ record start { current = some short_side; reference_price = t.ask_price }
      ]

module _ {F : Type 0} ⦃d : Double F⦄ (gw : Gateway F) (wake : TradeAccount F → TradeAccount F) where
  unfoldable pub trigger_selection : Thread F → Option (Thread F)
  unfolding case_selection
  trigger_selection th =
      let trigger = next_trigger th.instance in
      let u = moved trigger th.instance in
      if not (is_same_trigger u.prev_trigger_state trigger) && not (is_init trigger)
      then case_selection gw wake (record th { instance = turned trigger u })
      else some (record th { instance = u })

module _ {F : Type 0} where
  -- The counts are compared as unsigned 32-bit numbers, so that a negative one exceeds the limit.
  abbrev pub exceeds_live : TradeInstance F → Bool
  exceeds_live t =
      ltb t.maximum_live (to_u32 (get_total_live_order_count t.short_acc))
      || ltb t.maximum_live (to_u32 (get_total_live_order_count t.long_acc))

  unfoldable pub self_destruct : TradeInstance F → TradeInstance F
  self_destruct t = if exceeds_live t then enable_panic_close t else t

module _ {F : Type 0} ⦃d : Double F⦄ (gw : Gateway F) (wake : TradeAccount F → TradeAccount F) where
  -- Making a close that has been asked for, or going on with it.
  abbrev pub close_case : Bool → CaseType → TradeInstance F → Thread F → Option (Thread F)
  close_case true type t th = replace_case gw wake (create type t) (record th { instance = t })
  close_case false type t th = some th

  -- Whether there is a special case, and what it leaves.
  unfoldable pub special_cases : Thread F → Option (Thread F) × Bool
  unfolding replace_case create case_selection
  special_cases start =
      let t = self_destruct start.instance in
      let th = record start { instance = t } in
      if t.is_panic_close
      then (
        close_case t.panic_close_init panic_close (record t { panic_close_init = false }) th,
        true,
      )
      else if t.is_soft_close
      then (close_case t.soft_close_init soft_close (record t { soft_close_init = false }) th, true)
      else if is_none start.owned
      then (case_selection gw wake th, false)
      else (some th, false)
