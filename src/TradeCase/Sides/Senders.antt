-- ===== src/TradeCase/Sides/Senders.antt =====
-- The sides of the cases that close a position, and of the two special closes.
use tradingapp.Prelude.{◌≡◌, some, arith}
use tradingapp.Double.{Double}
use tradingapp.OrderAccount.{Gateway}
use tradingapp.TradeAccount.State.{TradeAccount}
use tradingapp.TradeCase.Sides.{KeepsSide}
use tradingapp.TradeInstance.State.{Side, TradeInstance}
use tradingapp.TradeCase.Case10.{
  TradeCase10, case10_change, case10_init, case10_next, case10_reprice, case10_send, case10_wait,
}
use tradingapp.TradeCase.Closing.{
  TradeCase1, TradeCase3, TradeCase5, case1_init, case1_reprice, case3_init, case3_reprice,
  case5_change_current, case5_change_opposite, case5_close_current, case5_close_opposite,
  case5_init, case5_reprice, check_fails,
}
use tradingapp.TradeCase.Sides.{KeepsSide}
use tradingapp.TradeCase.SoftClose.{
  SoftClose, soft_from, soft_init, soft_level, soft_reprice, soft_send,
}
use tradingapp.TradeInstance.PanicClose.{
  PanicClose, panic_from, panic_init, panic_reprice, send_excess,
}

module _ {F : Type 0} ⦃d : Double F⦄ (gw : Gateway F) (wake : TradeAccount F → TradeAccount F) where
  pub case1_init-KeepsSide :
      (c q : TradeCase1 F) (t u : TradeInstance F)
      → case1_init gw wake c t ≡ some (q, u)
      → KeepsSide t u × (q.base.side ≡ c.base.side)
  unfolding case1_init check_fails
  case1_init-KeepsSide c q t u e = ground arith

  pub case1_reprice-KeepsSide :
      (c q : TradeCase1 F) (t u : TradeInstance F)
      → case1_reprice gw wake c t ≡ some (q, u)
      → KeepsSide t u × (q.base.side ≡ c.base.side)
  unfolding case1_reprice check_fails
  case1_reprice-KeepsSide c q t u e = ground arith

  pub case3_init-KeepsSide :
      (c q : TradeCase3 F) (t u : TradeInstance F)
      → case3_init gw wake c t ≡ some (q, u)
      → KeepsSide t u × (q.base.side ≡ c.base.side)
  unfolding case3_init
  case3_init-KeepsSide c q t u e = ground arith

  pub case3_reprice-KeepsSide :
      (c q : TradeCase3 F) (t u : TradeInstance F)
      → case3_reprice gw wake c t ≡ some (q, u)
      → KeepsSide t u × (q.base.side ≡ c.base.side)
  unfolding case3_reprice
  case3_reprice-KeepsSide c q t u e = ground arith

  pub case5_init-KeepsSide :
      (c q : TradeCase5 F) (t u : TradeInstance F)
      → case5_init gw wake c t ≡ some (q, u)
      → KeepsSide t u × (q.base.side ≡ c.base.side)
  unfolding case5_init case5_close_current case5_close_opposite
  case5_init-KeepsSide c q t u e = ground arith

  pub case5_reprice-KeepsSide :
      (c q : TradeCase5 F) (t u : TradeInstance F)
      → case5_reprice gw wake c t ≡ some (q, u)
      → KeepsSide t u × (q.base.side ≡ c.base.side)
  unfolding case5_reprice case5_change_current case5_change_opposite
  case5_reprice-KeepsSide c q t u e = ground arith

  pub case10_init-KeepsSide :
      (c q : TradeCase10 F) (t u : TradeInstance F)
      → case10_init gw wake c t ≡ some (q, u)
      → KeepsSide t u × (q.base.side ≡ c.base.side)
  unfolding case10_send
  case10_init-KeepsSide c q t u e = ground arith

  pub case10_reprice-KeepsSide :
      (c q : TradeCase10 F) (t u : TradeInstance F)
      → case10_reprice gw wake c t ≡ some (q, u)
      → KeepsSide t u × (q.base.side ≡ c.base.side)
  unfolding case10_change
  case10_reprice-KeepsSide c q t u e = ground arith

  pub case10_wait-KeepsSide :
      (c q : TradeCase10 F) (t u : TradeInstance F)
      → case10_wait gw wake c t ≡ some (q, u)
      → KeepsSide t u × (q.base.side ≡ c.base.side)
  unfolding case10_wait case10_next
  case10_wait-KeepsSide c q t u e = ground (arith, case10_init-KeepsSide c q t u)

  pub soft_init-KeepsSide :
      (c q : SoftClose F) (t u : TradeInstance F)
      → soft_init gw wake c t ≡ some (q, u)
      → KeepsSide t u
  unfolding soft_from soft_level soft_send
  soft_init-KeepsSide c q t u e = ground arith

  pub soft_reprice-KeepsSide :
      (side : Side) (c q : SoftClose F) (t u : TradeInstance F)
      → soft_reprice gw wake side c t ≡ some (q, u)
      → KeepsSide t u
  unfolding soft_reprice
  soft_reprice-KeepsSide side c q t u e = ground arith

  pub panic_init-KeepsSide :
      (c q : PanicClose F) (t u : TradeInstance F)
      → panic_init gw wake c t ≡ some (q, u)
      → KeepsSide t u
  unfolding panic_from send_excess
  panic_init-KeepsSide c q t u e = ground arith

  pub panic_reprice-KeepsSide :
      (side : Side) (c q : PanicClose F) (t u : TradeInstance F)
      → panic_reprice gw wake side c t ≡ some (q, u)
      → KeepsSide t u
  unfolding panic_reprice
  panic_reprice-KeepsSide side c q t u e = ground arith
