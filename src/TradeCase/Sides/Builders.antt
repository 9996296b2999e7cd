-- ===== src/TradeCase/Sides/Builders.antt =====
-- The sides of the cases that build a position up or walk over the position table.
use tradingapp.Prelude.{ℕ, ◌≡◌, some, List, arith, Option-cases, inl, inr}
use tradingapp.Double.{Double}
use tradingapp.OrderAccount.{Gateway}
use tradingapp.TradeAccount.State.{TradeAccount}
use tradingapp.TradeCase.Sides.{KeepsSide}
use tradingapp.TradeInstance.State.{TradeInstance, account_of}
use tradingapp.TradeCase.{CaseBase}
use tradingapp.TradeCase.CloseTrigger.{
  CloseTrigger, close_trigger_init, close_trigger_reprice, close_trigger_wait,
}
use tradingapp.TradeCase.MaxTlv.{
  MaxTlv, tlv_change_current, tlv_change_opposite, tlv_init, tlv_reprice,
}
use tradingapp.TradeCase.Opening.{
  OnEquality, TradeCase4, TradeCase6C, case4_change, case4_from, case4_init, case4_reprice,
  case4_wait, case6c_init, case6c_wait, equality_init, equality_reprice, equality_wait,
}
use tradingapp.TradeCase.Requote.{
  live_orders, base_reprice, change_requote_orders, send_queue, send_requote_orders,
  update_requote_orders,
}
use tradingapp.TradeCase.Sides.{KeepsSide}

module _ {F : Type 0} ⦃d : Double F⦄ (gw : Gateway F) (wake : TradeAccount F → TradeAccount F) where
  pub send_requote_orders-KeepsSide :
      (c q : CaseBase F) (t u : TradeInstance F)
      → send_requote_orders gw wake c t ≡ some (q, u)
      → KeepsSide t u × (q.side ≡ c.side)
  unfolding send_requote_orders
  send_requote_orders-KeepsSide c q t u e = ground arith

  pub change_requote_orders-KeepsSide :
      (kept : List ℕ) (c q : CaseBase F) (t u : TradeInstance F)
      → change_requote_orders gw wake kept c t ≡ some (q, u)
      → KeepsSide t u × (q.side ≡ c.side)
  unfolding change_requote_orders send_requote_orders
  change_requote_orders-KeepsSide kept c q t u e = ground arith

  pub update_requote_orders-KeepsSide :
      (c q : CaseBase F) (t u : TradeInstance F)
      → update_requote_orders gw wake c t ≡ some (q, u)
      → KeepsSide t u × (q.side ≡ c.side)
  unfolding update_requote_orders
  update_requote_orders-KeepsSide c q t u e =
      let kept = live_orders gw wake (account_of c.side t) c.requote_orders in
      ground (arith, change_requote_orders-KeepsSide kept c q t u)

  pub base_reprice-KeepsSide :
      (c q : CaseBase F) (t u : TradeInstance F)
      → base_reprice gw wake c t ≡ some (q, u)
      → KeepsSide t u × (q.side ≡ c.side)
  unfolding base_reprice send_queue
  base_reprice-KeepsSide c q t u e = elim (Option-cases (update_requote_orders gw wake c t)) [
    | inl lost ↦ ground arith
    | inr ((b, v), found) ↦ ground (arith, update_requote_orders-KeepsSide c b t v found)
  ]

  pub equality_init-KeepsSide :
      (c q : OnEquality F) (t u : TradeInstance F)
      → equality_init gw wake c t ≡ some (q, u)
      → KeepsSide t u × (q.base.side ≡ c.base.side)
  unfolding equality_init
  equality_init-KeepsSide c q t u e = elim (Option-cases (send_requote_orders gw wake c.base t)) [
    | inl lost ↦ ground arith
    | inr ((b, v), found) ↦ ground (arith, send_requote_orders-KeepsSide c.base b t v found)
  ]

  pub equality_reprice-KeepsSide :
      (c q : OnEquality F) (t u : TradeInstance F)
      → equality_reprice gw wake c t ≡ some (q, u)
      → KeepsSide t u × (q.base.side ≡ c.base.side)
  unfolding equality_reprice
  equality_reprice-KeepsSide c q t u e = elim (Option-cases (base_reprice gw wake c.base t)) [
    | inl lost ↦ ground arith
    | inr ((b, v), found) ↦ ground (arith, base_reprice-KeepsSide c.base b t v found)
  ]

  pub equality_wait-KeepsSide :
      (c : OnEquality F) (t : TradeInstance F) → (equality_wait c t).base.side ≡ c.base.side
  unfolding equality_wait
  equality_wait-KeepsSide c t = ground arith

  pub case6c_init-KeepsSide :
      (c q : TradeCase6C F) (t u : TradeInstance F)
      → case6c_init gw wake c t ≡ some (q, u)
      → KeepsSide t u × (q.base.side ≡ c.base.side)
  unfolding case6c_init
  case6c_init-KeepsSide c q t u e = ground arith

  pub case6c_wait-KeepsSide :
      (c : TradeCase6C F) (t : TradeInstance F) → (case6c_wait c t).base.side ≡ c.base.side
  unfolding case6c_wait
  case6c_wait-KeepsSide c t = ground arith

  pub case4_init-KeepsSide :
      (c q : TradeCase4 F) (t u : TradeInstance F)
      → case4_init gw wake c t ≡ some (q, u)
      → KeepsSide t u × (q.base.side ≡ c.base.side)
  unfolding case4_from
  case4_init-KeepsSide c q t u e = ground arith

  pub case4_change-KeepsSide :
      (c q : TradeCase4 F) (t u : TradeInstance F)
      → case4_change gw wake c t ≡ some (q, u)
      → KeepsSide t u × (q.base.side ≡ c.base.side)
  unfolding case4_change
  case4_change-KeepsSide c q t u e = ground arith

  pub case4_reprice-KeepsSide :
      (c q : TradeCase4 F) (t u : TradeInstance F)
      → case4_reprice gw wake c t ≡ some (q, u)
      → KeepsSide t u × (q.base.side ≡ c.base.side)
  unfolding case4_reprice
  case4_reprice-KeepsSide c q t u e = elim (Option-cases (base_reprice gw wake c.base t)) [
    | inl lost ↦ ground arith
    | inr ((b, v), found) ↦ ground (
      arith,
      base_reprice-KeepsSide c.base b t v found,
      case4_change-KeepsSide (record c { base = b }) q v u,
    )
  ]

  pub case4_wait-KeepsSide :
      (c : TradeCase4 F) (t : TradeInstance F) → (case4_wait c t).base.side ≡ c.base.side
  unfolding case4_wait
  case4_wait-KeepsSide c t = ground arith

  pub close_trigger_init-KeepsSide :
      (c q : CloseTrigger F) (t u : TradeInstance F)
      → close_trigger_init gw wake c t ≡ some (q, u)
      → KeepsSide t u × (q.base.side ≡ c.base.side)
  unfolding close_trigger_init
  close_trigger_init-KeepsSide c q t u e = ground arith

  pub close_trigger_reprice-KeepsSide :
      (c q : CloseTrigger F) (t u : TradeInstance F)
      → close_trigger_reprice gw wake c t ≡ some (q, u)
      → KeepsSide t u × (q.base.side ≡ c.base.side)
  unfolding close_trigger_reprice
  close_trigger_reprice-KeepsSide c q t u e = ground arith

  pub close_trigger_wait-KeepsSide :
      (c : CloseTrigger F) (t : TradeInstance F) → (close_trigger_wait c t).base.side ≡ c.base.side
  unfolding close_trigger_wait
  close_trigger_wait-KeepsSide c t = ground arith

  pub tlv_init-KeepsSide :
      (c q : MaxTlv F) (t u : TradeInstance F)
      → tlv_init gw wake c t ≡ some (q, u)
      → KeepsSide t u × (q.base.side ≡ c.base.side)
  unfolding tlv_init
  tlv_init-KeepsSide c q t u e = ground arith

  pub tlv_reprice-KeepsSide :
      (c q : MaxTlv F) (t u : TradeInstance F)
      → tlv_reprice gw wake c t ≡ some (q, u)
      → KeepsSide t u × (q.base.side ≡ c.base.side)
  unfolding tlv_reprice tlv_change_current tlv_change_opposite
  tlv_reprice-KeepsSide c q t u e = ground arith
