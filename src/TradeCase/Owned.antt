-- ===== src/TradeCase/Owned.antt =====
-- The case that an instance owns, of whichever class: the constructors, and what `TradeCase::run` calls.
use tradingapp.Prelude.{Option, none, some, []}
use tradingapp.Prelude.Int.{to_u32}
use tradingapp.Double.{Double, zero_point}
use tradingapp.OrderAccount.{Gateway}
use tradingapp.TradeAccount.State.{TradeAccount}
use tradingapp.TradeInstance.State.{
  CaseType, case_none, case_1, case_2, case_3, case_4, case_5, case_close_opposite,
  case_hedge_current, case_6c, case_7, case_9, case_10, case_max_tlv,
  case_close_opposite_with_anticipated_pnl, case_hedged_mode, case_on_equality, case_close_trigger,
  panic_close, soft_close, CaseState, state_init, state_price_change, state_wait, state_done, Side,
  TradeInstance, account_of, opposite_side,
}
use tradingapp.TradeInstance.PanicClose.{PanicClose, panic_init, panic_reprice, panic_wait}
use tradingapp.TradeCase.{CaseBase, new_base, curr_pos, oppo_pos}
use tradingapp.TradeCase.Hedge.{
  HedgeCurrent, HedgedMode, hedge_init, hedge_reprice, hedge_wait, hedge_end, hedged_init,
  hedged_reprice, hedged_wait, hedged_end,
}
use tradingapp.TradeCase.SoftClose.{SoftClose, soft_init, soft_reprice, soft_wait}
use tradingapp.TradeCase.Profit.{
  TradeCase9, CloseOppositeWithPnl, case9_init, case9_reprice, case9_wait, close_opposite_init,
  close_opposite_reprice, close_opposite_done, case7_init,
}
use tradingapp.TradeCase.Anticipated.{
  CloseOppositeWithAnticipatedPnl, anticipated_init, anticipated_reprice, anticipated_wait,
  anticipated_end,
}
use tradingapp.TradeCase.Closing.{
  TradeCase1, TradeCase3, TradeCase5, case1_init, case1_reprice, case3_init, case3_reprice,
  case5_init, case5_reprice,
}
use tradingapp.TradeCase.MaxTlv.{MaxTlv, tlv_init, tlv_reprice}
use tradingapp.TradeCase.CloseTrigger.{
  CloseTrigger, close_trigger_init, close_trigger_reprice, close_trigger_wait,
}
use tradingapp.TradeCase.Case10.{TradeCase10, case10_init, case10_reprice, case10_wait}
use tradingapp.TradeCase.Opening.{
  TradeCase4, OnEquality, TradeCase6C, case4_init, case4_reprice, case4_wait, equality_target,
  equality_init, equality_reprice, equality_wait, case6c_init, case6c_wait,
}

pub data OwnedCase (F : Type 0) : Type 0 where
  owned_1 : TradeCase1 F → OwnedCase F
  owned_3 : TradeCase3 F → OwnedCase F
  owned_4 : TradeCase4 F → OwnedCase F
  owned_5 : TradeCase5 F → OwnedCase F
  owned_close_opposite : CloseOppositeWithPnl F → OwnedCase F
  owned_hedge_current : HedgeCurrent F → OwnedCase F
  owned_6c : TradeCase6C F → OwnedCase F
  owned_7 : CaseBase F → OwnedCase F
  owned_9 : TradeCase9 F → OwnedCase F
  owned_10 : TradeCase10 F → OwnedCase F
  owned_max_tlv : MaxTlv F → OwnedCase F
  owned_anticipated : CloseOppositeWithAnticipatedPnl F → OwnedCase F
  owned_hedged_mode : HedgedMode F → OwnedCase F
  owned_on_equality : OnEquality F → OwnedCase F
  owned_close_trigger : CloseTrigger F → OwnedCase F
  owned_panic_close : PanicClose F → OwnedCase F
  owned_soft_close : SoftClose F → OwnedCase F

-- A null current account is read through.
abbrev pub with_side : {A : Type 0} → Option Side → (Side → Option A) → Option A
with_side none next = none
with_side (some side) next = next side

module _ {F : Type 0} where
  abbrev pub state_of : OwnedCase F → CaseState
  state_of (owned_1 c) = c.base.state
  state_of (owned_3 c) = c.base.state
  state_of (owned_4 c) = c.base.state
  state_of (owned_5 c) = c.base.state
  state_of (owned_close_opposite c) = c.base.state
  state_of (owned_hedge_current c) = c.base.state
  state_of (owned_6c c) = c.base.state
  state_of (owned_7 c) = c.state
  state_of (owned_9 c) = c.base.state
  state_of (owned_10 c) = c.base.state
  state_of (owned_max_tlv c) = c.base.state
  state_of (owned_anticipated c) = c.base.state
  state_of (owned_hedged_mode c) = c.state
  state_of (owned_on_equality c) = c.base.state
  state_of (owned_close_trigger c) = c.base.state
  state_of (owned_panic_close c) = c.state
  state_of (owned_soft_close c) = c.state

  abbrev pub type_of : OwnedCase F → CaseType
  type_of (owned_1 _) = case_1
  type_of (owned_3 _) = case_3
  type_of (owned_4 _) = case_4
  type_of (owned_5 _) = case_5
  type_of (owned_close_opposite _) = case_close_opposite
  type_of (owned_hedge_current _) = case_hedge_current
  type_of (owned_6c _) = case_6c
  type_of (owned_7 _) = case_7
  type_of (owned_9 _) = case_9
  type_of (owned_10 _) = case_10
  type_of (owned_max_tlv _) = case_max_tlv
  type_of (owned_anticipated _) = case_close_opposite_with_anticipated_pnl
  type_of (owned_hedged_mode _) = case_hedged_mode
  type_of (owned_on_equality _) = case_on_equality
  type_of (owned_close_trigger _) = case_close_trigger
  type_of (owned_panic_close _) = panic_close
  type_of (owned_soft_close _) = soft_close

  -- The side of the case's current account, where the class keeps that of its base class.
  abbrev pub base_side : OwnedCase F → Option Side
  base_side (owned_1 c) = some c.base.side
  base_side (owned_3 c) = some c.base.side
  base_side (owned_4 c) = some c.base.side
  base_side (owned_5 c) = some c.base.side
  base_side (owned_close_opposite c) = some c.base.side
  base_side (owned_hedge_current c) = some c.base.side
  base_side (owned_6c c) = some c.base.side
  base_side (owned_7 c) = some c.side
  base_side (owned_9 c) = some c.base.side
  base_side (owned_10 c) = some c.base.side
  base_side (owned_max_tlv c) = some c.base.side
  base_side (owned_anticipated c) = some c.base.side
  base_side (owned_hedged_mode _) = none
  base_side (owned_on_equality c) = some c.base.side
  base_side (owned_close_trigger c) = some c.base.side
  base_side (owned_panic_close _) = none
  base_side (owned_soft_close _) = none

  -- The answer of a step of a class, as one of the owned case.
  abbrev pub own :
      {C : Type 0}
      → (C → OwnedCase F)
      → Option (C × TradeInstance F)
      → Option (OwnedCase F × TradeInstance F)
  own as_owned none = none
  own as_owned (some (c, t)) = some (as_owned c, t)

module _ {F : Type 0} ⦃d : Double F⦄ where
  -- The constructors, for an instance whose current account is known.
  unfoldable pub new_case : CaseType → Side → TradeInstance F → Option (OwnedCase F)
  new_case type side t =
      let base = new_base side t.trigger_state in
      elim type [
        | case_none ↦ none
        | case_1 ↦
            some (owned_1 (record { base = base; close_size = 0; prev_send_price = zero_point }))
        | case_2 ↦ none
        | case_3 ↦ some (owned_3 (record { base = base; close_size = 0 }))
        | case_4 ↦ some (
            owned_4 (record {
              base = base;
              threshold = zero_point;
              threshold_limit = zero_point;
              first_order = 0;
              first_order_size = 0;
              first_order_price = zero_point;
            }))
        | case_5 ↦ some (
            owned_5 (record {
              base = base;
              curr_close_size = 0;
              oppo_close_size = 0;
              curr_send_price = zero_point;
              oppo_send_price = zero_point;
              curr_order = 0;
              oppo_order = 0;
            }))
        | case_close_opposite ↦ some (
            owned_close_opposite (record {
              base = base;
              close_size = 0;
              init_size = to_u32 (oppo_pos side t);
              close_price = zero_point;
              close_id = 0;
            }))
        | case_hedge_current ↦ some (owned_hedge_current (record { base = base; ho_size = 0 }))
        | case_6c ↦
            some (
              owned_6c
                (record { base = base; tranch_at_init = (account_of side t).tranch_counter }))
        | case_7 ↦ some (owned_7 base)
        | case_9 ↦ some (owned_9 (record { base = base; close_size = 0 }))
        | case_10 ↦ some (
            owned_10 (record {
              base = base;
              close_size = 0;
              original_size = 0;
              error = zero_point;
              account_to_close = some (opposite_side side);
            }))
        | case_max_tlv ↦ some (
            owned_max_tlv (record {
              base = base;
              curr_price = zero_point;
              oppo_price = zero_point;
              curr_id = 0;
              oppo_id = 0;
              curr_size_init = to_u32 (curr_pos side t);
              oppo_size_init = to_u32 (oppo_pos side t);
            }))
        | case_close_opposite_with_anticipated_pnl ↦ some (
            owned_anticipated (record {
              base = base;
              close_size = to_u32 (oppo_pos side t);
              close_price = zero_point;
              order_id = 0;
            }))
        | case_hedged_mode ↦ some (
            owned_hedged_mode (record {
              state = state_init;
              ho_size = 0;
              price = zero_point;
              order_id = 0;
              selected = none;
            }))
        | case_on_equality ↦ some (
            owned_on_equality
              (record { base = base; target_pos = equality_target (account_of side t) t }))
        | case_close_trigger ↦
            some (owned_close_trigger (record { base = base; error = zero_point; orders = [] }))
        | panic_close ↦ some (
            owned_panic_close (record {
              state = state_init;
              send_price = zero_point;
              main_order_id = 0;
              close_size = 0;
              side = some side;
            }))
        | soft_close ↦ some (
            owned_soft_close (record {
              state = state_init;
              send_price = zero_point;
              main_order_id = 0;
              close_size = 0;
              side = some side;
            }))
      ]

module _ {F : Type 0} ⦃d : Double F⦄ (gw : Gateway F) (wake : TradeAccount F → TradeAccount F) where
  unfoldable pub owned_init : OwnedCase F → TradeInstance F → Option (OwnedCase F × TradeInstance F)
  owned_init (owned_1 c) t = own owned_1 (case1_init gw wake c t)
  owned_init (owned_3 c) t = own owned_3 (case3_init gw wake c t)
  owned_init (owned_4 c) t = own owned_4 (case4_init gw wake c t)
  owned_init (owned_5 c) t = own owned_5 (case5_init gw wake c t)
  owned_init (owned_close_opposite c) t = own owned_close_opposite (close_opposite_init gw wake c t)
  owned_init (owned_hedge_current c) t = own owned_hedge_current (hedge_init gw wake c t)
  owned_init (owned_6c c) t = own owned_6c (case6c_init gw wake c t)
  owned_init (owned_7 c) t = own owned_7 (some (case7_init c t))
  owned_init (owned_9 c) t = own owned_9 (case9_init gw wake c t)
  owned_init (owned_10 c) t = own owned_10 (case10_init gw wake c t)
  owned_init (owned_max_tlv c) t = own owned_max_tlv (tlv_init gw wake c t)
  owned_init (owned_anticipated c) t = own owned_anticipated (anticipated_init gw wake c t)
  owned_init (owned_hedged_mode c) t = own owned_hedged_mode (hedged_init gw wake c t)
  owned_init (owned_on_equality c) t = own owned_on_equality (equality_init gw wake c t)
  owned_init (owned_close_trigger c) t = own owned_close_trigger (close_trigger_init gw wake c t)
  owned_init (owned_panic_close c) t = own owned_panic_close (panic_init gw wake c t)
  owned_init (owned_soft_close c) t = own owned_soft_close (soft_init gw wake c t)

  unfoldable pub owned_reprice :
      OwnedCase F → TradeInstance F → Option (OwnedCase F × TradeInstance F)
  owned_reprice (owned_1 c) t = own owned_1 (case1_reprice gw wake c t)
  owned_reprice (owned_3 c) t = own owned_3 (case3_reprice gw wake c t)
  owned_reprice (owned_4 c) t = own owned_4 (case4_reprice gw wake c t)
  owned_reprice (owned_5 c) t = own owned_5 (case5_reprice gw wake c t)
  owned_reprice (owned_close_opposite c) t =
      own owned_close_opposite (close_opposite_reprice gw wake c t)
  owned_reprice (owned_hedge_current c) t = own owned_hedge_current (hedge_reprice gw wake c t)
  owned_reprice (owned_6c c) t = some (owned_6c c, t)
  owned_reprice (owned_7 c) t = some (owned_7 c, t)
  owned_reprice (owned_9 c) t = own owned_9 (case9_reprice gw wake c t)
  owned_reprice (owned_10 c) t = own owned_10 (case10_reprice gw wake c t)
  owned_reprice (owned_max_tlv c) t = own owned_max_tlv (tlv_reprice gw wake c t)
  owned_reprice (owned_anticipated c) t = own owned_anticipated (anticipated_reprice gw wake c t)
  owned_reprice (owned_hedged_mode c) t = own owned_hedged_mode (hedged_reprice gw wake c t)
  owned_reprice (owned_on_equality c) t = own owned_on_equality (equality_reprice gw wake c t)
  owned_reprice (owned_close_trigger c) t =
      own owned_close_trigger (close_trigger_reprice gw wake c t)
  owned_reprice (owned_panic_close c) t =
      own owned_panic_close (with_side c.side (λ side. panic_reprice gw wake side c t))
  owned_reprice (owned_soft_close c) t =
      own owned_soft_close (with_side c.side (λ side. soft_reprice gw wake side c t))

  unfoldable pub owned_wait : OwnedCase F → TradeInstance F → Option (OwnedCase F × TradeInstance F)
  owned_wait (owned_4 c) t = some (owned_4 (case4_wait c t), t)
  owned_wait (owned_hedge_current c) t = some (owned_hedge_current (hedge_wait c t), t)
  owned_wait (owned_6c c) t = some (owned_6c (case6c_wait c t), t)
  owned_wait (owned_9 c) t = some (owned_9 (case9_wait c t), t)
  owned_wait (owned_10 c) t = own owned_10 (case10_wait gw wake c t)
  owned_wait (owned_anticipated c) t = some (owned_anticipated (anticipated_wait c t), t)
  owned_wait (owned_hedged_mode c) t = some (owned_hedged_mode (hedged_wait c t), t)
  owned_wait (owned_on_equality c) t = some (owned_on_equality (equality_wait c t), t)
  owned_wait (owned_close_trigger c) t = some (owned_close_trigger (close_trigger_wait c t), t)
  owned_wait (owned_panic_close c) t =
      own owned_panic_close (with_side c.side (λ side. some (panic_wait gw wake side c t, t)))
  owned_wait (owned_soft_close c) t =
      own owned_soft_close (with_side c.side (λ side. some (soft_wait side c t, t)))
  owned_wait c t = some (c, t)

module _ {F : Type 0} where
  unfoldable pub owned_done : OwnedCase F → TradeInstance F → OwnedCase F
  owned_done (owned_close_opposite c) t = owned_close_opposite (close_opposite_done c t)
  owned_done c t = c

module _ {F : Type 0} ⦃d : Double F⦄ where
  -- The destructors of the classes.
  unfoldable pub owned_end : OwnedCase F → TradeInstance F → Option (TradeInstance F)
  owned_end (owned_hedge_current c) t = some (hedge_end c t)
  owned_end (owned_anticipated c) t = some (anticipated_end c t)
  owned_end (owned_hedged_mode c) t = hedged_end c t
  owned_end c t = some t

module _ {F : Type 0} ⦃d : Double F⦄ (gw : Gateway F) (wake : TradeAccount F → TradeAccount F) where
  -- `TradeCase::run`, which calls the function of a state.
  unfoldable pub run_in :
      CaseState → OwnedCase F → TradeInstance F → Option (OwnedCase F × TradeInstance F)
  unfolding owned_init owned_reprice owned_wait owned_done
  run_in state_init c t = owned_init gw wake c t
  run_in state_price_change c t = owned_reprice gw wake c t
  run_in state_wait c t = owned_wait gw wake c t
  run_in state_done c t = some (owned_done c t, t)
  run_in _ c t = some (c, t)

  abbrev pub run_owned_case : OwnedCase F → TradeInstance F → Option (OwnedCase F × TradeInstance F)
  run_owned_case c t = run_in (state_of c) c t
