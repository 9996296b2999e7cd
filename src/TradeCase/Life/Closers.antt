-- ===== src/TradeCase/Life/Closers.antt =====
-- The states of the hedges and of the cases that close the shares in profit.
use tradingapp.Prelude.{◌≡◌, Bool, true, some, arith}
use tradingapp.Double.{Double}
use tradingapp.OrderAccount.{Gateway}
use tradingapp.TradeAccount.State.{TradeAccount}
use tradingapp.TradeInstance.State.{
  CaseState, state_price_change, state_wait, state_failed, state_done, TradeInstance,
}
use tradingapp.TradeCase.Anticipated.{
  CloseOppositeWithAnticipatedPnl, anticipated_init, anticipated_reprice, anticipated_wait,
}
use tradingapp.TradeCase.Hedge.{
  HedgeCurrent, HedgedMode, change_hedged, hedge_init, hedge_reprice, hedge_wait, hedged_init,
  hedged_reprice, hedged_wait,
}
use tradingapp.TradeCase.Profit.{
  CloseOppositeWithPnl, TradeCase9, case9_close, case9_init, case9_reprice, case9_wait,
  close_opposite_change, close_opposite_done, close_opposite_init, close_opposite_reprice,
}

module _ {F : Type 0} ⦃d : Double F⦄ (gw : Gateway F) (wake : TradeAccount F → TradeAccount F)
    (P : CaseState → Bool) (price_change : P state_price_change ≡ true) (wait : P state_wait ≡ true)
    (failed : P state_failed ≡ true) (done : P state_done ≡ true) where
  pub hedge_init-Keeps :
      (c q : HedgeCurrent F) (t u : TradeInstance F)
      → P c.base.state ≡ true
      → hedge_init gw wake c t ≡ some (q, u)
      → P q.base.state ≡ true
  unfolding hedge_init
  hedge_init-Keeps c q t u p e = ground arith

  pub hedge_reprice-Keeps :
      (c q : HedgeCurrent F) (t u : TradeInstance F)
      → P c.base.state ≡ true
      → hedge_reprice gw wake c t ≡ some (q, u)
      → P q.base.state ≡ true
  unfolding hedge_reprice hedge_wait
  hedge_reprice-Keeps c q t u p e = ground arith

  pub hedge_wait-Keeps :
      (c : HedgeCurrent F) (t : TradeInstance F)
      → P c.base.state ≡ true
      → P (hedge_wait c t).base.state ≡ true
  unfolding hedge_wait
  hedge_wait-Keeps c t p = ground arith

  pub hedged_init-Keeps :
      (c q : HedgedMode F) (t u : TradeInstance F)
      → P c.state ≡ true
      → hedged_init gw wake c t ≡ some (q, u)
      → P q.state ≡ true
  unfolding hedged_init
  hedged_init-Keeps c q t u p e = ground arith

  pub hedged_reprice-Keeps :
      (c q : HedgedMode F) (t u : TradeInstance F)
      → P c.state ≡ true
      → hedged_reprice gw wake c t ≡ some (q, u)
      → P q.state ≡ true
  unfolding hedged_reprice change_hedged hedged_wait
  hedged_reprice-Keeps c q t u p e = ground arith

  pub hedged_wait-Keeps :
      (c : HedgedMode F) (t : TradeInstance F) → P c.state ≡ true → P (hedged_wait c t).state ≡ true
  unfolding hedged_wait
  hedged_wait-Keeps c t p = ground arith

  pub case9_init-Keeps :
      (c q : TradeCase9 F) (t u : TradeInstance F)
      → P c.base.state ≡ true
      → case9_init gw wake c t ≡ some (q, u)
      → P q.base.state ≡ true
  unfolding case9_init case9_close
  case9_init-Keeps c q t u p e = ground arith

  pub case9_reprice-Keeps :
      (c q : TradeCase9 F) (t u : TradeInstance F)
      → P c.base.state ≡ true
      → case9_reprice gw wake c t ≡ some (q, u)
      → P q.base.state ≡ true
  unfolding case9_reprice
  case9_reprice-Keeps c q t u p e = ground arith

  pub case9_wait-Keeps :
      (c : TradeCase9 F) (t : TradeInstance F)
      → P c.base.state ≡ true
      → P (case9_wait c t).base.state ≡ true
  unfolding case9_wait
  case9_wait-Keeps c t p = ground arith

  pub close_opposite_init-Keeps :
      (c q : CloseOppositeWithPnl F) (t u : TradeInstance F)
      → P c.base.state ≡ true
      → close_opposite_init gw wake c t ≡ some (q, u)
      → P q.base.state ≡ true
  unfolding close_opposite_init
  close_opposite_init-Keeps c q t u p e = ground arith

  pub close_opposite_reprice-Keeps :
      (c q : CloseOppositeWithPnl F) (t u : TradeInstance F)
      → P c.base.state ≡ true
      → close_opposite_reprice gw wake c t ≡ some (q, u)
      → P q.base.state ≡ true
  unfolding close_opposite_reprice close_opposite_change
  close_opposite_reprice-Keeps c q t u p e = ground arith

  pub close_opposite_done-Keeps :
      (c : CloseOppositeWithPnl F) (t : TradeInstance F)
      → P c.base.state ≡ true
      → P (close_opposite_done c t).base.state ≡ true
  unfolding close_opposite_done
  close_opposite_done-Keeps c t p = ground arith

  pub anticipated_init-Keeps :
      (c q : CloseOppositeWithAnticipatedPnl F) (t u : TradeInstance F)
      → P c.base.state ≡ true
      → anticipated_init gw wake c t ≡ some (q, u)
      → P q.base.state ≡ true
  unfolding anticipated_init
  anticipated_init-Keeps c q t u p e = ground arith

  pub anticipated_reprice-Keeps :
      (c q : CloseOppositeWithAnticipatedPnl F) (t u : TradeInstance F)
      → P c.base.state ≡ true
      → anticipated_reprice gw wake c t ≡ some (q, u)
      → P q.base.state ≡ true
  unfolding anticipated_reprice anticipated_wait
  anticipated_reprice-Keeps c q t u p e = ground arith

  pub anticipated_wait-Keeps :
      (c : CloseOppositeWithAnticipatedPnl F) (t : TradeInstance F)
      → P c.base.state ≡ true
      → P (anticipated_wait c t).base.state ≡ true
  unfolding anticipated_wait
  anticipated_wait-Keeps c t p = ground arith
