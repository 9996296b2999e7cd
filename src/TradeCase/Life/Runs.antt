-- ===== src/TradeCase/Life/Runs.antt =====
-- The states that an owned case goes through, from its constructor on.
use tradingapp.Prelude.{◌≡◌, refl, Bool, true, Option, none, some, arith}
use tradingapp.Double.{Double}
use tradingapp.OrderAccount.{Gateway}
use tradingapp.TradeAccount.State.{TradeAccount}
use tradingapp.TradeInstance.State.{
  CaseState, state_price_change, state_wait, state_failed, state_done, Side, TradeInstance,
}
use tradingapp.TradeCase.{CaseBase}
use tradingapp.TradeCase.Profit.{case7_init}
use tradingapp.TradeCase.Owned.{
  OwnedCase, owned_1, owned_3, owned_4, owned_5, owned_close_opposite, owned_hedge_current,
  owned_6c, owned_7, owned_9, owned_10, owned_max_tlv, owned_anticipated, owned_hedged_mode,
  owned_on_equality, owned_close_trigger, owned_panic_close, owned_soft_close, state_of, own,
  with_side, owned_init, owned_reprice, owned_wait,
}
use tradingapp.TradeCase.Life.Builders.{
  case4_init-Keeps, case4_reprice-Keeps, case4_wait-Keeps, case6c_init-Keeps, case6c_wait-Keeps,
  close_trigger_init-Keeps, close_trigger_reprice-Keeps, close_trigger_wait-Keeps,
  equality_init-Keeps, equality_reprice-Keeps, equality_wait-Keeps, tlv_init-Keeps,
  tlv_reprice-Keeps,
}
use tradingapp.TradeCase.Life.Closers.{
  anticipated_init-Keeps, anticipated_reprice-Keeps, anticipated_wait-Keeps, case9_init-Keeps,
  case9_reprice-Keeps, case9_wait-Keeps, close_opposite_init-Keeps, close_opposite_reprice-Keeps,
  hedge_init-Keeps, hedge_reprice-Keeps, hedge_wait-Keeps, hedged_init-Keeps, hedged_reprice-Keeps,
  hedged_wait-Keeps,
}
use tradingapp.TradeCase.Life.Senders.{
  case10_init-Keeps, case10_reprice-Keeps, case10_wait-Keeps, case1_init-Keeps, case1_reprice-Keeps,
  case3_init-Keeps, case3_reprice-Keeps, case5_init-Keeps, case5_reprice-Keeps, panic_init-Keeps,
  panic_reprice-Keeps, panic_wait-Keeps, soft_init-Keeps, soft_reprice-Keeps, soft_wait-Keeps,
}

pub with_side-Keeps :
    {A : Type 0} (Q : A → Type 0) (side : Option Side) (next : Side → Option A) (a : A)
    → ((s : Side) (b : A) → next s ≡ some b → Q b)
    → with_side side next ≡ some a
    → Q a
with_side-Keeps Q none next a h e = ground arith
with_side-Keeps Q (some side) next a h e = h side a e

module _ {F : Type 0} (P : CaseState → Bool) where
  own-Keeps :
      {C : Type 0} (as_owned : C → OwnedCase F) (r : Option (C × TradeInstance F)) (v : OwnedCase F)
      (u : TradeInstance F)
      → ((q : C) (t : TradeInstance F) → r ≡ some (q, t) → P (state_of (as_owned q)) ≡ true)
      → own as_owned r ≡ some (v, u)
      → P (state_of v) ≡ true
  own-Keeps as_owned none v u h e = ground arith
  own-Keeps as_owned (some (q, t)) v u h e =
      let kept = h q t refl in let same : v ≡ as_owned q = ground arith in rw same kept

module _ {F : Type 0} ⦃d : Double F⦄ (gw : Gateway F) (wake : TradeAccount F → TradeAccount F)
    (P : CaseState → Bool) (price_change : P state_price_change ≡ true) (wait : P state_wait ≡ true)
    (failed : P state_failed ≡ true) (done : P state_done ≡ true) where
  case7_init-Keeps :
      (c q : CaseBase F) (t u : TradeInstance F)
      → P c.state ≡ true
      → some (case7_init c t) ≡ some (q, u)
      → P q.state ≡ true
  unfolding case7_init
  case7_init-Keeps c q t u p e = ground arith

  pub owned_init-Keeps :
      (c v : OwnedCase F) (t u : TradeInstance F)
      → P (state_of c) ≡ true
      → owned_init gw wake c t ≡ some (v, u)
      → P (state_of v) ≡ true
  unfolding owned_init
  owned_init-Keeps (owned_1 c) v t u p e =
      own-Keeps P owned_1 _ v u
        (λ q w h. case1_init-Keeps gw wake P price_change wait failed done c q t w p h) e
  owned_init-Keeps (owned_3 c) v t u p e =
      own-Keeps P owned_3 _ v u
        (λ q w h. case3_init-Keeps gw wake P price_change wait failed done c q t w p h) e
  owned_init-Keeps (owned_4 c) v t u p e =
      own-Keeps P owned_4 _ v u
        (λ q w h. case4_init-Keeps gw wake P price_change wait failed done c q t w p h) e
  owned_init-Keeps (owned_5 c) v t u p e =
      own-Keeps P owned_5 _ v u
        (λ q w h. case5_init-Keeps gw wake P price_change wait failed done c q t w p h) e
  owned_init-Keeps (owned_close_opposite c) v t u p e =
      own-Keeps P owned_close_opposite _ v u
        (λ q w h. close_opposite_init-Keeps gw wake P price_change wait failed done c q t w p h) e
  owned_init-Keeps (owned_hedge_current c) v t u p e =
      own-Keeps P owned_hedge_current _ v u
        (λ q w h. hedge_init-Keeps gw wake P price_change wait failed done c q t w p h) e
  owned_init-Keeps (owned_6c c) v t u p e =
      own-Keeps P owned_6c _ v u
        (λ q w h. case6c_init-Keeps gw wake P price_change wait failed done c q t w p h) e
  owned_init-Keeps (owned_9 c) v t u p e =
      own-Keeps P owned_9 _ v u
        (λ q w h. case9_init-Keeps gw wake P price_change wait failed done c q t w p h) e
  owned_init-Keeps (owned_10 c) v t u p e =
      own-Keeps P owned_10 _ v u
        (λ q w h. case10_init-Keeps gw wake P price_change wait failed done c q t w p h) e
  owned_init-Keeps (owned_max_tlv c) v t u p e =
      own-Keeps P owned_max_tlv _ v u
        (λ q w h. tlv_init-Keeps gw wake P price_change wait failed done c q t w p h) e
  owned_init-Keeps (owned_anticipated c) v t u p e =
      own-Keeps P owned_anticipated _ v u
        (λ q w h. anticipated_init-Keeps gw wake P price_change wait failed done c q t w p h) e
  owned_init-Keeps (owned_hedged_mode c) v t u p e =
      own-Keeps P owned_hedged_mode _ v u
        (λ q w h. hedged_init-Keeps gw wake P price_change wait failed done c q t w p h) e
  owned_init-Keeps (owned_on_equality c) v t u p e =
      own-Keeps P owned_on_equality _ v u
        (λ q w h. equality_init-Keeps gw wake P price_change wait failed done c q t w p h) e
  owned_init-Keeps (owned_close_trigger c) v t u p e =
      own-Keeps P owned_close_trigger _ v u
        (λ q w h. close_trigger_init-Keeps gw wake P price_change wait failed done c q t w p h) e
  owned_init-Keeps (owned_panic_close c) v t u p e =
      own-Keeps P owned_panic_close _ v u
        (λ q w h. panic_init-Keeps gw wake P price_change wait failed done c q t w p h) e
  owned_init-Keeps (owned_soft_close c) v t u p e =
      own-Keeps P owned_soft_close _ v u
        (λ q w h. soft_init-Keeps gw wake P price_change wait failed done c q t w p h) e
  owned_init-Keeps (owned_7 c) v t u p e =
      own-Keeps P owned_7 _ v u (λ q w h. case7_init-Keeps c q t w p h) e

  pub owned_reprice-Keeps :
      (c v : OwnedCase F) (t u : TradeInstance F)
      → P (state_of c) ≡ true
      → owned_reprice gw wake c t ≡ some (v, u)
      → P (state_of v) ≡ true
  unfolding owned_reprice
  owned_reprice-Keeps (owned_1 c) v t u p e =
      own-Keeps P owned_1 _ v u
        (λ q w h. case1_reprice-Keeps gw wake P price_change wait failed done c q t w p h) e
  owned_reprice-Keeps (owned_3 c) v t u p e =
      own-Keeps P owned_3 _ v u
        (λ q w h. case3_reprice-Keeps gw wake P price_change wait failed done c q t w p h) e
  owned_reprice-Keeps (owned_4 c) v t u p e =
      own-Keeps P owned_4 _ v u
        (λ q w h. case4_reprice-Keeps gw wake P price_change wait failed done c q t w p h) e
  owned_reprice-Keeps (owned_5 c) v t u p e =
      own-Keeps P owned_5 _ v u
        (λ q w h. case5_reprice-Keeps gw wake P price_change wait failed done c q t w p h) e
  owned_reprice-Keeps (owned_close_opposite c) v t u p e =
      own-Keeps P owned_close_opposite _ v u
        (λ q w h. close_opposite_reprice-Keeps gw wake P price_change wait failed done c q t w p h)
        e
  owned_reprice-Keeps (owned_hedge_current c) v t u p e =
      own-Keeps P owned_hedge_current _ v u
        (λ q w h. hedge_reprice-Keeps gw wake P price_change wait failed done c q t w p h) e
  owned_reprice-Keeps (owned_9 c) v t u p e =
      own-Keeps P owned_9 _ v u
        (λ q w h. case9_reprice-Keeps gw wake P price_change wait failed done c q t w p h) e
  owned_reprice-Keeps (owned_10 c) v t u p e =
      own-Keeps P owned_10 _ v u
        (λ q w h. case10_reprice-Keeps gw wake P price_change wait failed done c q t w p h) e
  owned_reprice-Keeps (owned_max_tlv c) v t u p e =
      own-Keeps P owned_max_tlv _ v u
        (λ q w h. tlv_reprice-Keeps gw wake P price_change wait failed done c q t w p h) e
  owned_reprice-Keeps (owned_anticipated c) v t u p e =
      own-Keeps P owned_anticipated _ v u
        (λ q w h. anticipated_reprice-Keeps gw wake P price_change wait failed done c q t w p h) e
  owned_reprice-Keeps (owned_hedged_mode c) v t u p e =
      own-Keeps P owned_hedged_mode _ v u
        (λ q w h. hedged_reprice-Keeps gw wake P price_change wait failed done c q t w p h) e
  owned_reprice-Keeps (owned_on_equality c) v t u p e =
      own-Keeps P owned_on_equality _ v u
        (λ q w h. equality_reprice-Keeps gw wake P price_change wait failed done c q t w p h) e
  owned_reprice-Keeps (owned_close_trigger c) v t u p e =
      own-Keeps P owned_close_trigger _ v u
        (λ q w h. close_trigger_reprice-Keeps gw wake P price_change wait failed done c q t w p h) e
  owned_reprice-Keeps (owned_panic_close c) v t u p e =
      own-Keeps P owned_panic_close _ v u
        (λ q w h.
          with_side-Keeps (λ r. P r.0.state ≡ true) c.side _ (q, w)
            (λ side r k.
              panic_reprice-Keeps gw wake P price_change wait failed done side c r.0 t r.1 p k)
            h)
        e
  owned_reprice-Keeps (owned_soft_close c) v t u p e =
      own-Keeps P owned_soft_close _ v u
        (λ q w h.
          with_side-Keeps (λ r. P r.0.state ≡ true) c.side _ (q, w)
            (λ side r k.
              soft_reprice-Keeps gw wake P price_change wait failed done side c r.0 t r.1 p k)
            h)
        e
  owned_reprice-Keeps (owned_6c c) v t u p e = ground arith
  owned_reprice-Keeps (owned_7 c) v t u p e = ground arith

  pub owned_wait-Keeps :
      (c v : OwnedCase F) (t u : TradeInstance F)
      → P (state_of c) ≡ true
      → owned_wait gw wake c t ≡ some (v, u)
      → P (state_of v) ≡ true
  unfolding owned_wait
  owned_wait-Keeps (owned_1 c) v t u p e = ground arith
  owned_wait-Keeps (owned_3 c) v t u p e = ground arith
  owned_wait-Keeps (owned_4 c) v t u p e =
      ground (arith, case4_wait-Keeps gw wake P price_change wait failed done c t p)
  owned_wait-Keeps (owned_5 c) v t u p e = ground arith
  owned_wait-Keeps (owned_close_opposite c) v t u p e = ground arith
  owned_wait-Keeps (owned_hedge_current c) v t u p e =
      ground (arith, hedge_wait-Keeps gw wake P price_change wait failed done c t p)
  owned_wait-Keeps (owned_6c c) v t u p e =
      ground (arith, case6c_wait-Keeps gw wake P price_change wait failed done c t p)
  owned_wait-Keeps (owned_9 c) v t u p e =
      ground (arith, case9_wait-Keeps gw wake P price_change wait failed done c t p)
  owned_wait-Keeps (owned_10 c) v t u p e =
      own-Keeps P owned_10 _ v u
        (λ q w h. case10_wait-Keeps gw wake P price_change wait failed done c q t w p h) e
  owned_wait-Keeps (owned_max_tlv c) v t u p e = ground arith
  owned_wait-Keeps (owned_anticipated c) v t u p e =
      ground (arith, anticipated_wait-Keeps gw wake P price_change wait failed done c t p)
  owned_wait-Keeps (owned_hedged_mode c) v t u p e =
      ground (arith, hedged_wait-Keeps gw wake P price_change wait failed done c t p)
  owned_wait-Keeps (owned_on_equality c) v t u p e =
      ground (arith, equality_wait-Keeps gw wake P price_change wait failed done c t p)
  owned_wait-Keeps (owned_close_trigger c) v t u p e =
      ground (arith, close_trigger_wait-Keeps gw wake P price_change wait failed done c t p)
  owned_wait-Keeps (owned_panic_close c) v t u p e =
      own-Keeps P owned_panic_close _ v u
        (λ q w h.
          with_side-Keeps (λ r. P r.0.state ≡ true) c.side _ (q, w)
            (λ side r k.
              ground (arith, panic_wait-Keeps gw wake P price_change wait failed done side c t p))
            h)
        e
  owned_wait-Keeps (owned_soft_close c) v t u p e =
      own-Keeps P owned_soft_close _ v u
        (λ q w h.
          with_side-Keeps (λ r. P r.0.state ≡ true) c.side _ (q, w)
            (λ side r k.
              ground (arith, soft_wait-Keeps gw wake P price_change wait failed done side c t p))
            h)
        e
  owned_wait-Keeps (owned_7 c) v t u p e = ground arith
