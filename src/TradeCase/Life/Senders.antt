-- ===== src/TradeCase/Life/Senders.antt =====
-- The states of the cases that close a position, and of the two special closes.
use tradingapp.Prelude.{◌≡◌, Bool, true, some, arith}
use tradingapp.Double.{Double}
use tradingapp.OrderAccount.{Gateway}
use tradingapp.TradeAccount.State.{TradeAccount}
use tradingapp.TradeInstance.State.{
  CaseState, state_price_change, state_wait, state_failed, state_done, Side, TradeInstance,
}
use tradingapp.TradeCase.Case10.{
  TradeCase10, case10_change, case10_init, case10_next, case10_reprice, case10_send, case10_wait,
}
use tradingapp.TradeCase.Closing.{
  TradeCase1, TradeCase3, TradeCase5, case1_init, case1_reprice, case3_init, case3_reprice,
  case5_change_current, case5_change_opposite, case5_close_current, case5_close_opposite,
  case5_init, case5_reprice, check_fails,
}
use tradingapp.TradeCase.SoftClose.{
  SoftClose, soft_from, soft_init, soft_level, soft_reprice, soft_send, soft_wait,
}
use tradingapp.TradeInstance.PanicClose.{
  PanicClose, panic_from, panic_init, panic_reprice, panic_wait, send_excess,
}

module _ {F : Type 0} ⦃d : Double F⦄ (gw : Gateway F) (wake : TradeAccount F → TradeAccount F)
    (P : CaseState → Bool) (price_change : P state_price_change ≡ true) (wait : P state_wait ≡ true)
    (failed : P state_failed ≡ true) (done : P state_done ≡ true) where
  pub case1_init-Keeps :
      (c q : TradeCase1 F) (t u : TradeInstance F)
      → P c.base.state ≡ true
      → case1_init gw wake c t ≡ some (q, u)
      → P q.base.state ≡ true
  unfolding case1_init check_fails
  case1_init-Keeps c q t u p e = ground arith

  pub case1_reprice-Keeps :
      (c q : TradeCase1 F) (t u : TradeInstance F)
      → P c.base.state ≡ true
      → case1_reprice gw wake c t ≡ some (q, u)
      → P q.base.state ≡ true
  unfolding case1_reprice check_fails
  case1_reprice-Keeps c q t u p e = ground arith

  pub case3_init-Keeps :
      (c q : TradeCase3 F) (t u : TradeInstance F)
      → P c.base.state ≡ true
      → case3_init gw wake c t ≡ some (q, u)
      → P q.base.state ≡ true
  unfolding case3_init
  case3_init-Keeps c q t u p e = ground arith

  pub case3_reprice-Keeps :
      (c q : TradeCase3 F) (t u : TradeInstance F)
      → P c.base.state ≡ true
      → case3_reprice gw wake c t ≡ some (q, u)
      → P q.base.state ≡ true
  unfolding case3_reprice
  case3_reprice-Keeps c q t u p e = ground arith

  pub case5_init-Keeps :
      (c q : TradeCase5 F) (t u : TradeInstance F)
      → P c.base.state ≡ true
      → case5_init gw wake c t ≡ some (q, u)
      → P q.base.state ≡ true
  unfolding case5_init case5_close_current case5_close_opposite
  case5_init-Keeps c q t u p e = ground arith

  pub case5_reprice-Keeps :
      (c q : TradeCase5 F) (t u : TradeInstance F)
      → P c.base.state ≡ true
      → case5_reprice gw wake c t ≡ some (q, u)
      → P q.base.state ≡ true
  unfolding case5_reprice case5_change_current case5_change_opposite
  case5_reprice-Keeps c q t u p e = ground arith

  pub case10_init-Keeps :
      (c q : TradeCase10 F) (t u : TradeInstance F)
      → P c.base.state ≡ true
      → case10_init gw wake c t ≡ some (q, u)
      → P q.base.state ≡ true
  unfolding case10_send
  case10_init-Keeps c q t u p e = ground arith

  pub case10_reprice-Keeps :
      (c q : TradeCase10 F) (t u : TradeInstance F)
      → P c.base.state ≡ true
      → case10_reprice gw wake c t ≡ some (q, u)
      → P q.base.state ≡ true
  unfolding case10_change
  case10_reprice-Keeps c q t u p e = ground arith

  pub case10_wait-Keeps :
      (c q : TradeCase10 F) (t u : TradeInstance F)
      → P c.base.state ≡ true
      → case10_wait gw wake c t ≡ some (q, u)
      → P q.base.state ≡ true
  unfolding case10_wait case10_next
  case10_wait-Keeps c q t u p e = ground (arith, case10_init-Keeps c q t u p)

  pub soft_init-Keeps :
      (c q : SoftClose F) (t u : TradeInstance F)
      → P c.state ≡ true
      → soft_init gw wake c t ≡ some (q, u)
      → P q.state ≡ true
  unfolding soft_from soft_level soft_send
  soft_init-Keeps c q t u p e = ground arith

  pub soft_reprice-Keeps :
      (side : Side) (c q : SoftClose F) (t u : TradeInstance F)
      → P c.state ≡ true
      → soft_reprice gw wake side c t ≡ some (q, u)
      → P q.state ≡ true
  unfolding soft_reprice
  soft_reprice-Keeps side c q t u p e = ground arith

  pub soft_wait-Keeps :
      (side : Side) (c : SoftClose F) (t : TradeInstance F)
      → P c.state ≡ true
      → P (soft_wait side c t).state ≡ true
  unfolding soft_wait
  soft_wait-Keeps side c t p = ground arith

  pub panic_init-Keeps :
      (c q : PanicClose F) (t u : TradeInstance F)
      → P c.state ≡ true
      → panic_init gw wake c t ≡ some (q, u)
      → P q.state ≡ true
  unfolding panic_from send_excess
  panic_init-Keeps c q t u p e = ground arith

  pub panic_reprice-Keeps :
      (side : Side) (c q : PanicClose F) (t u : TradeInstance F)
      → P c.state ≡ true
      → panic_reprice gw wake side c t ≡ some (q, u)
      → P q.state ≡ true
  unfolding panic_reprice
  panic_reprice-Keeps side c q t u p e = ground arith

  pub panic_wait-Keeps :
      (side : Side) (c : PanicClose F) (t : TradeInstance F)
      → P c.state ≡ true
      → P (panic_wait gw wake side c t).state ≡ true
  unfolding panic_wait
  panic_wait-Keeps side c t p = ground arith
