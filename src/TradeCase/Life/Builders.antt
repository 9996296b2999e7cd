-- ===== src/TradeCase/Life/Builders.antt =====
-- The states of the cases that build a position up or walk over the position table.
use tradingapp.Prelude.{ℕ, ◌≡◌, Bool, true, some, List, arith, Option-cases, inl, inr}
use tradingapp.Double.{Double}
use tradingapp.OrderAccount.{Gateway}
use tradingapp.TradeAccount.State.{TradeAccount}
use tradingapp.TradeInstance.State.{
  CaseState, state_price_change, state_wait, state_failed, state_done, TradeInstance, account_of,
}
use tradingapp.TradeCase.{CaseBase}
use tradingapp.TradeCase.CloseTrigger.{
  CloseTrigger, close_trigger_init, close_trigger_reprice, close_trigger_wait,
}
use tradingapp.TradeCase.MaxTlv.{
  MaxTlv, tlv_change_current, tlv_change_opposite, tlv_init, tlv_reprice,
}
use tradingapp.TradeCase.Opening.{
  OnEquality, TradeCase4, TradeCase6C, case4_change, case4_from, case4_init, case4_reprice,
  case4_wait, case6c_init, case6c_wait, equality_init, equality_reprice, equality_wait,
}
use tradingapp.TradeCase.Requote.{
  live_orders, base_reprice, change_requote_orders, send_queue, send_requote_orders,
  update_requote_orders,
}

module _ {F : Type 0} ⦃d : Double F⦄ (gw : Gateway F) (wake : TradeAccount F → TradeAccount F)
    (P : CaseState → Bool) (price_change : P state_price_change ≡ true) (wait : P state_wait ≡ true)
    (failed : P state_failed ≡ true) (done : P state_done ≡ true) where
  pub send_requote_orders-Keeps :
      (c q : CaseBase F) (t u : TradeInstance F)
      → P c.state ≡ true
      → send_requote_orders gw wake c t ≡ some (q, u)
      → P q.state ≡ true
  unfolding send_requote_orders
  send_requote_orders-Keeps c q t u p e = ground arith

  pub change_requote_orders-Keeps :
      (kept : List ℕ) (c q : CaseBase F) (t u : TradeInstance F)
      → P c.state ≡ true
      → change_requote_orders gw wake kept c t ≡ some (q, u)
      → P q.state ≡ true
  unfolding change_requote_orders send_requote_orders
  change_requote_orders-Keeps kept c q t u p e = ground arith

  pub update_requote_orders-Keeps :
      (c q : CaseBase F) (t u : TradeInstance F)
      → P c.state ≡ true
      → update_requote_orders gw wake c t ≡ some (q, u)
      → P q.state ≡ true
  unfolding update_requote_orders
  update_requote_orders-Keeps c q t u p e =
      let kept = live_orders gw wake (account_of c.side t) c.requote_orders in
      ground (arith, change_requote_orders-Keeps kept c q t u p)

  pub base_reprice-Keeps :
      (c q : CaseBase F) (t u : TradeInstance F)
      → P c.state ≡ true
      → base_reprice gw wake c t ≡ some (q, u)
      → P q.state ≡ true
  unfolding base_reprice send_queue
  base_reprice-Keeps c q t u p e = elim (Option-cases (update_requote_orders gw wake c t)) [
    | inl lost ↦ ground arith
    | inr ((b, v), found) ↦ ground (arith, update_requote_orders-Keeps c b t v p found)
  ]

  pub equality_init-Keeps :
      (c q : OnEquality F) (t u : TradeInstance F)
      → P c.base.state ≡ true
      → equality_init gw wake c t ≡ some (q, u)
      → P q.base.state ≡ true
  unfolding equality_init
  equality_init-Keeps c q t u p e = ground arith

  pub equality_reprice-Keeps :
      (c q : OnEquality F) (t u : TradeInstance F)
      → P c.base.state ≡ true
      → equality_reprice gw wake c t ≡ some (q, u)
      → P q.base.state ≡ true
  unfolding equality_reprice
  equality_reprice-Keeps c q t u p e = elim (Option-cases (base_reprice gw wake c.base t)) [
    | inl lost ↦ ground arith
    | inr ((b, v), found) ↦ ground (arith, base_reprice-Keeps c.base b t v p found)
  ]

  pub equality_wait-Keeps :
      (c : OnEquality F) (t : TradeInstance F)
      → P c.base.state ≡ true
      → P (equality_wait c t).base.state ≡ true
  unfolding equality_wait
  equality_wait-Keeps c t p = ground arith

  pub case6c_init-Keeps :
      (c q : TradeCase6C F) (t u : TradeInstance F)
      → P c.base.state ≡ true
      → case6c_init gw wake c t ≡ some (q, u)
      → P q.base.state ≡ true
  unfolding case6c_init
  case6c_init-Keeps c q t u p e = ground arith

  pub case6c_wait-Keeps :
      (c : TradeCase6C F) (t : TradeInstance F)
      → P c.base.state ≡ true
      → P (case6c_wait c t).base.state ≡ true
  unfolding case6c_wait
  case6c_wait-Keeps c t p = ground arith

  pub case4_init-Keeps :
      (c q : TradeCase4 F) (t u : TradeInstance F)
      → P c.base.state ≡ true
      → case4_init gw wake c t ≡ some (q, u)
      → P q.base.state ≡ true
  unfolding case4_from
  case4_init-Keeps c q t u p e = ground arith

  pub case4_change-Keeps :
      (c q : TradeCase4 F) (t u : TradeInstance F)
      → P c.base.state ≡ true
      → case4_change gw wake c t ≡ some (q, u)
      → P q.base.state ≡ true
  unfolding case4_change
  case4_change-Keeps c q t u p e = ground arith

  pub case4_reprice-Keeps :
      (c q : TradeCase4 F) (t u : TradeInstance F)
      → P c.base.state ≡ true
      → case4_reprice gw wake c t ≡ some (q, u)
      → P q.base.state ≡ true
  unfolding case4_reprice
  case4_reprice-Keeps c q t u p e = elim (Option-cases (base_reprice gw wake c.base t)) [
    | inl lost ↦ ground arith
    | inr ((b, v), found) ↦ ground (
      arith,
      base_reprice-Keeps c.base b t v p found,
      case4_change-Keeps (record c { base = b }) q v u,
    )
  ]

  pub case4_wait-Keeps :
      (c : TradeCase4 F) (t : TradeInstance F)
      → P c.base.state ≡ true
      → P (case4_wait c t).base.state ≡ true
  unfolding case4_wait
  case4_wait-Keeps c t p = ground arith

  pub close_trigger_init-Keeps :
      (c q : CloseTrigger F) (t u : TradeInstance F)
      → P c.base.state ≡ true
      → close_trigger_init gw wake c t ≡ some (q, u)
      → P q.base.state ≡ true
  unfolding close_trigger_init
  close_trigger_init-Keeps c q t u p e = ground arith

  pub close_trigger_reprice-Keeps :
      (c q : CloseTrigger F) (t u : TradeInstance F)
      → P c.base.state ≡ true
      → close_trigger_reprice gw wake c t ≡ some (q, u)
      → P q.base.state ≡ true
  unfolding close_trigger_reprice
  close_trigger_reprice-Keeps c q t u p e = ground arith

  pub close_trigger_wait-Keeps :
      (c : CloseTrigger F) (t : TradeInstance F)
      → P c.base.state ≡ true
      → P (close_trigger_wait c t).base.state ≡ true
  unfolding close_trigger_wait
  close_trigger_wait-Keeps c t p = ground arith

  pub tlv_init-Keeps :
      (c q : MaxTlv F) (t u : TradeInstance F)
      → P c.base.state ≡ true
      → tlv_init gw wake c t ≡ some (q, u)
      → P q.base.state ≡ true
  unfolding tlv_init
  tlv_init-Keeps c q t u p e = ground arith

  pub tlv_reprice-Keeps :
      (c q : MaxTlv F) (t u : TradeInstance F)
      → P c.base.state ≡ true
      → tlv_reprice gw wake c t ≡ some (q, u)
      → P q.base.state ≡ true
  unfolding tlv_reprice tlv_change_current tlv_change_opposite
  tlv_reprice-Keeps c q t u p e = ground arith
