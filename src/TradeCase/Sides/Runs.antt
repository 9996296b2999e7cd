-- ===== src/TradeCase/Sides/Runs.antt =====
-- Every call of `run`, and every destructor of a class, leaves the sides alone.
use tradingapp.Prelude.{◌≡◌, refl, ap, Option, none, some, arith}
use tradingapp.Double.{Double}
use tradingapp.OrderAccount.{Gateway}
use tradingapp.TradeAccount.State.{TradeAccount}
use tradingapp.TradeInstance.State.{
  CaseState, state_init, state_price_change, state_open_mmf, state_change_mmf, state_wait,
  state_failed, state_done, state_not_selected, TradeInstance,
}
use tradingapp.TradeCase.{CaseBase}
use tradingapp.TradeCase.Profit.{case7_init, close_opposite_done}
use tradingapp.TradeCase.Hedge.{hedge_end, hedged_end}
use tradingapp.TradeCase.Anticipated.{anticipated_end}
use tradingapp.TradeCase.Owned.{
  OwnedCase, owned_1, owned_3, owned_4, owned_5, owned_close_opposite, owned_hedge_current,
  owned_6c, owned_7, owned_9, owned_10, owned_max_tlv, owned_anticipated, owned_hedged_mode,
  owned_on_equality, owned_close_trigger, owned_panic_close, owned_soft_close, type_of, base_side,
  own, owned_init, owned_reprice, owned_wait, owned_done, owned_end, run_in,
}
use tradingapp.TradeCase.Sides.{KeepsSide}
use tradingapp.TradeCase.Life.Runs.{with_side-Keeps}
use tradingapp.TradeCase.Sides.Builders.{
  case4_init-KeepsSide, case4_reprice-KeepsSide, case4_wait-KeepsSide, case6c_init-KeepsSide,
  case6c_wait-KeepsSide, close_trigger_init-KeepsSide, close_trigger_reprice-KeepsSide,
  close_trigger_wait-KeepsSide, equality_init-KeepsSide, equality_reprice-KeepsSide,
  equality_wait-KeepsSide, tlv_init-KeepsSide, tlv_reprice-KeepsSide,
}
use tradingapp.TradeCase.Sides.Closers.{
  anticipated_init-KeepsSide, anticipated_reprice-KeepsSide, anticipated_wait-KeepsSide,
  case9_init-KeepsSide, case9_reprice-KeepsSide, case9_wait-KeepsSide,
  close_opposite_init-KeepsSide, close_opposite_reprice-KeepsSide, hedge_init-KeepsSide,
  hedge_reprice-KeepsSide, hedge_wait-KeepsSide, hedged_init-KeepsSide, hedged_reprice-KeepsSide,
}
use tradingapp.TradeCase.Sides.Senders.{
  case10_init-KeepsSide, case10_reprice-KeepsSide, case10_wait-KeepsSide, case1_init-KeepsSide,
  case1_reprice-KeepsSide, case3_init-KeepsSide, case3_reprice-KeepsSide, case5_init-KeepsSide,
  case5_reprice-KeepsSide, panic_init-KeepsSide, panic_reprice-KeepsSide, soft_init-KeepsSide,
  soft_reprice-KeepsSide,
}

module _ {F : Type 0} where
  -- The class of the case and its side stay, too.
  abbrev pub KeepsCase : OwnedCase F → OwnedCase F → TradeInstance F → TradeInstance F → Type 0
  KeepsCase c v t u = KeepsSide t u × (base_side v ≡ base_side c) × (type_of v ≡ type_of c)

  unmoved :
      {C : Type 0} (c : C) (t : TradeInstance F) (r : C × TradeInstance F)
      → some (c, t) ≡ some r
      → KeepsSide t r.1
  unmoved c t r e = ground arith

  own-KeepsCase :
      {C : Type 0} (as_owned : C → OwnedCase F) (c : OwnedCase F) (t : TradeInstance F)
      (r : Option (C × TradeInstance F)) (v : OwnedCase F) (u : TradeInstance F)
      → ((q : C) (w : TradeInstance F) → r ≡ some (q, w) → KeepsCase c (as_owned q) t w)
      → own as_owned r ≡ some (v, u)
      → KeepsCase c v t u
  own-KeepsCase as_owned c t none v u h e = ground arith
  own-KeepsCase as_owned c t (some (q, w)) v u h e =
      let kept = h q w refl in
      let same : v ≡ as_owned q = ground arith in
      let there : u ≡ w = ground arith in rw (same, there) kept

module _ {F : Type 0} ⦃d : Double F⦄ (gw : Gateway F) (wake : TradeAccount F → TradeAccount F) where
  case7_init-KeepsCase :
      (c q : CaseBase F) (t u : TradeInstance F)
      → some (case7_init c t) ≡ some (q, u)
      → KeepsCase (owned_7 c) (owned_7 q) t u
  unfolding case7_init
  case7_init-KeepsCase c q t u e = ground arith

  owned_init-KeepsCase :
      (c v : OwnedCase F) (t u : TradeInstance F)
      → owned_init gw wake c t ≡ some (v, u)
      → KeepsCase c v t u
  unfolding owned_init
  owned_init-KeepsCase (owned_1 c) v t u e =
      own-KeepsCase owned_1 (owned_1 c) t _ v u
        (λ q w h.
          let (kept, side) = case1_init-KeepsSide gw wake c q t w h in (kept, ap some side, refl))
        e
  owned_init-KeepsCase (owned_3 c) v t u e =
      own-KeepsCase owned_3 (owned_3 c) t _ v u
        (λ q w h.
          let (kept, side) = case3_init-KeepsSide gw wake c q t w h in (kept, ap some side, refl))
        e
  owned_init-KeepsCase (owned_4 c) v t u e =
      own-KeepsCase owned_4 (owned_4 c) t _ v u
        (λ q w h.
          let (kept, side) = case4_init-KeepsSide gw wake c q t w h in (kept, ap some side, refl))
        e
  owned_init-KeepsCase (owned_5 c) v t u e =
      own-KeepsCase owned_5 (owned_5 c) t _ v u
        (λ q w h.
          let (kept, side) = case5_init-KeepsSide gw wake c q t w h in (kept, ap some side, refl))
        e
  owned_init-KeepsCase (owned_close_opposite c) v t u e =
      own-KeepsCase owned_close_opposite (owned_close_opposite c) t _ v u
        (λ q w h.
          let (kept, side) = close_opposite_init-KeepsSide gw wake c q t w h in
          (kept, ap some side, refl))
        e
  owned_init-KeepsCase (owned_hedge_current c) v t u e =
      own-KeepsCase owned_hedge_current (owned_hedge_current c) t _ v u
        (λ q w h.
          let (kept, side) = hedge_init-KeepsSide gw wake c q t w h in (kept, ap some side, refl))
        e
  owned_init-KeepsCase (owned_6c c) v t u e =
      own-KeepsCase owned_6c (owned_6c c) t _ v u
        (λ q w h.
          let (kept, side) = case6c_init-KeepsSide gw wake c q t w h in (kept, ap some side, refl))
        e
  owned_init-KeepsCase (owned_9 c) v t u e =
      own-KeepsCase owned_9 (owned_9 c) t _ v u
        (λ q w h.
          let (kept, side) = case9_init-KeepsSide gw wake c q t w h in (kept, ap some side, refl))
        e
  owned_init-KeepsCase (owned_10 c) v t u e =
      own-KeepsCase owned_10 (owned_10 c) t _ v u
        (λ q w h.
          let (kept, side) = case10_init-KeepsSide gw wake c q t w h in (kept, ap some side, refl))
        e
  owned_init-KeepsCase (owned_max_tlv c) v t u e =
      own-KeepsCase owned_max_tlv (owned_max_tlv c) t _ v u
        (λ q w h.
          let (kept, side) = tlv_init-KeepsSide gw wake c q t w h in (kept, ap some side, refl))
        e
  owned_init-KeepsCase (owned_anticipated c) v t u e =
      own-KeepsCase owned_anticipated (owned_anticipated c) t _ v u
        (λ q w h.
          let (kept, side) = anticipated_init-KeepsSide gw wake c q t w h in
          (kept, ap some side, refl))
        e
  owned_init-KeepsCase (owned_hedged_mode c) v t u e =
      own-KeepsCase owned_hedged_mode (owned_hedged_mode c) t _ v u
        (λ q w h. (hedged_init-KeepsSide gw wake c q t w h, refl, refl)) e
  owned_init-KeepsCase (owned_on_equality c) v t u e =
      own-KeepsCase owned_on_equality (owned_on_equality c) t _ v u
        (λ q w h.
          let (kept, side) = equality_init-KeepsSide gw wake c q t w h in
          (kept, ap some side, refl))
        e
  owned_init-KeepsCase (owned_close_trigger c) v t u e =
      own-KeepsCase owned_close_trigger (owned_close_trigger c) t _ v u
        (λ q w h.
          let (kept, side) = close_trigger_init-KeepsSide gw wake c q t w h in
          (kept, ap some side, refl))
        e
  owned_init-KeepsCase (owned_panic_close c) v t u e =
      own-KeepsCase owned_panic_close (owned_panic_close c) t _ v u
        (λ q w h. (panic_init-KeepsSide gw wake c q t w h, refl, refl)) e
  owned_init-KeepsCase (owned_soft_close c) v t u e =
      own-KeepsCase owned_soft_close (owned_soft_close c) t _ v u
        (λ q w h. (soft_init-KeepsSide gw wake c q t w h, refl, refl)) e
  owned_init-KeepsCase (owned_7 c) v t u e =
      own-KeepsCase owned_7 (owned_7 c) t _ v u (λ q w h. case7_init-KeepsCase c q t w h) e

  owned_reprice-KeepsCase :
      (c v : OwnedCase F) (t u : TradeInstance F)
      → owned_reprice gw wake c t ≡ some (v, u)
      → KeepsCase c v t u
  unfolding owned_reprice
  owned_reprice-KeepsCase (owned_1 c) v t u e =
      own-KeepsCase owned_1 (owned_1 c) t _ v u
        (λ q w h.
          let (kept, side) = case1_reprice-KeepsSide gw wake c q t w h in
          (kept, ap some side, refl))
        e
  owned_reprice-KeepsCase (owned_3 c) v t u e =
      own-KeepsCase owned_3 (owned_3 c) t _ v u
        (λ q w h.
          let (kept, side) = case3_reprice-KeepsSide gw wake c q t w h in
          (kept, ap some side, refl))
        e
  owned_reprice-KeepsCase (owned_4 c) v t u e =
      own-KeepsCase owned_4 (owned_4 c) t _ v u
        (λ q w h.
          let (kept, side) = case4_reprice-KeepsSide gw wake c q t w h in
          (kept, ap some side, refl))
        e
  owned_reprice-KeepsCase (owned_5 c) v t u e =
      own-KeepsCase owned_5 (owned_5 c) t _ v u
        (λ q w h.
          let (kept, side) = case5_reprice-KeepsSide gw wake c q t w h in
          (kept, ap some side, refl))
        e
  owned_reprice-KeepsCase (owned_close_opposite c) v t u e =
      own-KeepsCase owned_close_opposite (owned_close_opposite c) t _ v u
        (λ q w h.
          let (kept, side) = close_opposite_reprice-KeepsSide gw wake c q t w h in
          (kept, ap some side, refl))
        e
  owned_reprice-KeepsCase (owned_hedge_current c) v t u e =
      own-KeepsCase owned_hedge_current (owned_hedge_current c) t _ v u
        (λ q w h.
          let (kept, side) = hedge_reprice-KeepsSide gw wake c q t w h in
          (kept, ap some side, refl))
        e
  owned_reprice-KeepsCase (owned_9 c) v t u e =
      own-KeepsCase owned_9 (owned_9 c) t _ v u
        (λ q w h.
          let (kept, side) = case9_reprice-KeepsSide gw wake c q t w h in
          (kept, ap some side, refl))
        e
  owned_reprice-KeepsCase (owned_10 c) v t u e =
      own-KeepsCase owned_10 (owned_10 c) t _ v u
        (λ q w h.
          let (kept, side) = case10_reprice-KeepsSide gw wake c q t w h in
          (kept, ap some side, refl))
        e
  owned_reprice-KeepsCase (owned_max_tlv c) v t u e =
      own-KeepsCase owned_max_tlv (owned_max_tlv c) t _ v u
        (λ q w h.
          let (kept, side) = tlv_reprice-KeepsSide gw wake c q t w h in (kept, ap some side, refl))
        e
  owned_reprice-KeepsCase (owned_anticipated c) v t u e =
      own-KeepsCase owned_anticipated (owned_anticipated c) t _ v u
        (λ q w h.
          let (kept, side) = anticipated_reprice-KeepsSide gw wake c q t w h in
          (kept, ap some side, refl))
        e
  owned_reprice-KeepsCase (owned_hedged_mode c) v t u e =
      own-KeepsCase owned_hedged_mode (owned_hedged_mode c) t _ v u
        (λ q w h. (hedged_reprice-KeepsSide gw wake c q t w h, refl, refl)) e
  owned_reprice-KeepsCase (owned_on_equality c) v t u e =
      own-KeepsCase owned_on_equality (owned_on_equality c) t _ v u
        (λ q w h.
          let (kept, side) = equality_reprice-KeepsSide gw wake c q t w h in
          (kept, ap some side, refl))
        e
  owned_reprice-KeepsCase (owned_close_trigger c) v t u e =
      own-KeepsCase owned_close_trigger (owned_close_trigger c) t _ v u
        (λ q w h.
          let (kept, side) = close_trigger_reprice-KeepsSide gw wake c q t w h in
          (kept, ap some side, refl))
        e
  owned_reprice-KeepsCase (owned_panic_close c) v t u e =
      own-KeepsCase owned_panic_close (owned_panic_close c) t _ v u
        (λ q w h.
          with_side-Keeps (λ r. KeepsCase (owned_panic_close c) (owned_panic_close r.0) t r.1)
            c.side _ (q, w)
            (λ side r k. (panic_reprice-KeepsSide gw wake side c r.0 t r.1 k, refl, refl)) h)
        e
  owned_reprice-KeepsCase (owned_soft_close c) v t u e =
      own-KeepsCase owned_soft_close (owned_soft_close c) t _ v u
        (λ q w h.
          with_side-Keeps (λ r. KeepsCase (owned_soft_close c) (owned_soft_close r.0) t r.1) c.side
            _ (q, w) (λ side r k. (soft_reprice-KeepsSide gw wake side c r.0 t r.1 k, refl, refl))
            h)
        e
  owned_reprice-KeepsCase (owned_6c c) v t u e = ground arith
  owned_reprice-KeepsCase (owned_7 c) v t u e = ground arith

  owned_wait-KeepsCase :
      (c v : OwnedCase F) (t u : TradeInstance F)
      → owned_wait gw wake c t ≡ some (v, u)
      → KeepsCase c v t u
  unfolding owned_wait
  owned_wait-KeepsCase (owned_1 c) v t u e = ground arith
  owned_wait-KeepsCase (owned_3 c) v t u e = ground arith
  owned_wait-KeepsCase (owned_4 c) v t u e = ground (arith, case4_wait-KeepsSide gw wake c t)
  owned_wait-KeepsCase (owned_5 c) v t u e = ground arith
  owned_wait-KeepsCase (owned_close_opposite c) v t u e = ground arith
  owned_wait-KeepsCase (owned_hedge_current c) v t u e =
      ground (arith, hedge_wait-KeepsSide gw wake c t)
  owned_wait-KeepsCase (owned_6c c) v t u e = ground (arith, case6c_wait-KeepsSide gw wake c t)
  owned_wait-KeepsCase (owned_9 c) v t u e = ground (arith, case9_wait-KeepsSide gw wake c t)
  owned_wait-KeepsCase (owned_10 c) v t u e =
      own-KeepsCase owned_10 (owned_10 c) t _ v u
        (λ q w h.
          let (kept, side) = case10_wait-KeepsSide gw wake c q t w h in (kept, ap some side, refl))
        e
  owned_wait-KeepsCase (owned_max_tlv c) v t u e = ground arith
  owned_wait-KeepsCase (owned_anticipated c) v t u e =
      ground (arith, anticipated_wait-KeepsSide gw wake c t)
  owned_wait-KeepsCase (owned_hedged_mode c) v t u e = ground arith
  owned_wait-KeepsCase (owned_on_equality c) v t u e =
      ground (arith, equality_wait-KeepsSide gw wake c t)
  owned_wait-KeepsCase (owned_close_trigger c) v t u e =
      ground (arith, close_trigger_wait-KeepsSide gw wake c t)
  owned_wait-KeepsCase (owned_panic_close c) v t u e =
      own-KeepsCase owned_panic_close (owned_panic_close c) t _ v u
        (λ q w h.
          with_side-Keeps (λ r. KeepsCase (owned_panic_close c) (owned_panic_close r.0) t r.1)
            c.side _ (q, w) (λ side r k. (unmoved _ t r k, refl, refl)) h)
        e
  owned_wait-KeepsCase (owned_soft_close c) v t u e =
      own-KeepsCase owned_soft_close (owned_soft_close c) t _ v u
        (λ q w h.
          with_side-Keeps (λ r. KeepsCase (owned_soft_close c) (owned_soft_close r.0) t r.1) c.side
            _ (q, w) (λ side r k. (unmoved _ t r k, refl, refl)) h)
        e
  owned_wait-KeepsCase (owned_7 c) v t u e = ground arith

  owned_done-KeepsCase : (c : OwnedCase F) (t : TradeInstance F) → KeepsCase c (owned_done c t) t t
  unfolding owned_done close_opposite_done
  owned_done-KeepsCase c t = ground arith

  pub run_in-KeepsCase :
      (s : CaseState) (c v : OwnedCase F) (t u : TradeInstance F)
      → run_in gw wake s c t ≡ some (v, u)
      → KeepsCase c v t u
  unfolding run_in
  run_in-KeepsCase state_init c v t u e = owned_init-KeepsCase c v t u e
  run_in-KeepsCase state_price_change c v t u e = owned_reprice-KeepsCase c v t u e
  run_in-KeepsCase state_wait c v t u e = owned_wait-KeepsCase c v t u e
  run_in-KeepsCase state_done c v t u e = ground (arith, owned_done-KeepsCase c t)
  run_in-KeepsCase state_failed c v t u e = ground arith
  run_in-KeepsCase state_open_mmf c v t u e = ground arith
  run_in-KeepsCase state_change_mmf c v t u e = ground arith
  run_in-KeepsCase state_not_selected c v t u e = ground arith

  pub owned_end-KeepsSide :
      (c : OwnedCase F) (t u : TradeInstance F) → owned_end c t ≡ some u → KeepsSide t u
  unfolding owned_end hedge_end anticipated_end hedged_end
  owned_end-KeepsSide c t u e = ground arith
