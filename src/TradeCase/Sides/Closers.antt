-- ===== src/TradeCase/Sides/Closers.antt =====
-- The sides of the hedges and of the cases that close the shares in profit.
use tradingapp.Prelude.{◌≡◌, some, arith}
use tradingapp.Double.{Double}
use tradingapp.OrderAccount.{Gateway}
use tradingapp.TradeAccount.State.{TradeAccount}
use tradingapp.TradeCase.Sides.{KeepsSide}
use tradingapp.TradeInstance.State.{TradeInstance}
use tradingapp.TradeCase.Anticipated.{
  CloseOppositeWithAnticipatedPnl, anticipated_init, anticipated_reprice, anticipated_wait,
}
use tradingapp.TradeCase.Hedge.{
  HedgeCurrent, HedgedMode, change_hedged, hedge_init, hedge_reprice, hedge_wait, hedged_init,
  hedged_reprice, hedged_wait,
}
use tradingapp.TradeCase.Profit.{
  CloseOppositeWithPnl, TradeCase9, case9_close, case9_init, case9_reprice, case9_wait,
  close_opposite_change, close_opposite_done, close_opposite_init, close_opposite_reprice,
}
use tradingapp.TradeCase.Sides.{KeepsSide}

module _ {F : Type 0} ⦃d : Double F⦄ (gw : Gateway F) (wake : TradeAccount F → TradeAccount F) where
  pub hedge_init-KeepsSide :
      (c q : HedgeCurrent F) (t u : TradeInstance F)
      → hedge_init gw wake c t ≡ some (q, u)
      → KeepsSide t u × (q.base.side ≡ c.base.side)
  unfolding hedge_init
  hedge_init-KeepsSide c q t u e = ground arith

  pub hedge_reprice-KeepsSide :
      (c q : HedgeCurrent F) (t u : TradeInstance F)
      → hedge_reprice gw wake c t ≡ some (q, u)
      → KeepsSide t u × (q.base.side ≡ c.base.side)
  unfolding hedge_reprice hedge_wait
  hedge_reprice-KeepsSide c q t u e = ground arith

  pub hedge_wait-KeepsSide :
      (c : HedgeCurrent F) (t : TradeInstance F) → (hedge_wait c t).base.side ≡ c.base.side
  unfolding hedge_wait
  hedge_wait-KeepsSide c t = ground arith

  pub hedged_init-KeepsSide :
      (c q : HedgedMode F) (t u : TradeInstance F)
      → hedged_init gw wake c t ≡ some (q, u)
      → KeepsSide t u
  unfolding hedged_init
  hedged_init-KeepsSide c q t u e = ground arith

  pub hedged_reprice-KeepsSide :
      (c q : HedgedMode F) (t u : TradeInstance F)
      → hedged_reprice gw wake c t ≡ some (q, u)
      → KeepsSide t u
  unfolding hedged_reprice change_hedged hedged_wait
  hedged_reprice-KeepsSide c q t u e = ground arith

  pub case9_init-KeepsSide :
      (c q : TradeCase9 F) (t u : TradeInstance F)
      → case9_init gw wake c t ≡ some (q, u)
      → KeepsSide t u × (q.base.side ≡ c.base.side)
  unfolding case9_init case9_close
  case9_init-KeepsSide c q t u e = ground arith

  pub case9_reprice-KeepsSide :
      (c q : TradeCase9 F) (t u : TradeInstance F)
      → case9_reprice gw wake c t ≡ some (q, u)
      → KeepsSide t u × (q.base.side ≡ c.base.side)
  unfolding case9_reprice
  case9_reprice-KeepsSide c q t u e = ground arith

  pub case9_wait-KeepsSide :
      (c : TradeCase9 F) (t : TradeInstance F) → (case9_wait c t).base.side ≡ c.base.side
  unfolding case9_wait
  case9_wait-KeepsSide c t = ground arith

  pub close_opposite_init-KeepsSide :
      (c q : CloseOppositeWithPnl F) (t u : TradeInstance F)
      → close_opposite_init gw wake c t ≡ some (q, u)
      → KeepsSide t u × (q.base.side ≡ c.base.side)
  unfolding close_opposite_init
  close_opposite_init-KeepsSide c q t u e = ground arith

  pub close_opposite_reprice-KeepsSide :
      (c q : CloseOppositeWithPnl F) (t u : TradeInstance F)
      → close_opposite_reprice gw wake c t ≡ some (q, u)
      → KeepsSide t u × (q.base.side ≡ c.base.side)
  unfolding close_opposite_reprice close_opposite_change
  close_opposite_reprice-KeepsSide c q t u e = ground arith

  pub close_opposite_done-KeepsSide :
      (c : CloseOppositeWithPnl F) (t : TradeInstance F)
      → (close_opposite_done c t).base.side ≡ c.base.side
  unfolding close_opposite_done
  close_opposite_done-KeepsSide c t = ground arith

  pub anticipated_init-KeepsSide :
      (c q : CloseOppositeWithAnticipatedPnl F) (t u : TradeInstance F)
      → anticipated_init gw wake c t ≡ some (q, u)
      → KeepsSide t u × (q.base.side ≡ c.base.side)
  unfolding anticipated_init
  anticipated_init-KeepsSide c q t u e = ground arith

  pub anticipated_reprice-KeepsSide :
      (c q : CloseOppositeWithAnticipatedPnl F) (t u : TradeInstance F)
      → anticipated_reprice gw wake c t ≡ some (q, u)
      → KeepsSide t u × (q.base.side ≡ c.base.side)
  unfolding anticipated_reprice anticipated_wait
  anticipated_reprice-KeepsSide c q t u e = ground arith

  pub anticipated_wait-KeepsSide :
      (c : CloseOppositeWithAnticipatedPnl F) (t : TradeInstance F)
      → (anticipated_wait c t).base.side ≡ c.base.side
  unfolding anticipated_wait
  anticipated_wait-KeepsSide c t = ground arith
