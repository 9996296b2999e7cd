-- ===== src/TradeCase/Steps.antt =====
-- The steps of the cases that work in the current account alone.
use tradingapp.Prelude.{
  ℕ, ◌≤◌, ◌≡◌, refl, false, Option, none, some, List, [], ◌∷◌, arith, inl, inr, Option-cases,
}
use tradingapp.Prelude.Int.{to_u32}
use tradingapp.Double.{Double, zero_point}
use tradingapp.Order.{trade_send_close}
use tradingapp.OrderAccount.{Gateway}
use tradingapp.TradeAccount.State.{TradeAccount, sizeof_close_order_with_pnl}
use tradingapp.TradeAccount.Requests.{open_position, open_with_done, close_position}
use tradingapp.TradeAccount.Changes.{change}
use tradingapp.TradeInstance.State.{ShareRound, TradeInstance, account_of, send_price}
use tradingapp.TradeInstance.Prices.{open_price, close_price}
use tradingapp.TradeCase.{CaseBase, set_current, curr_pos}
use tradingapp.TradeCase.Frames.{
  Frames, IsFrame, IsFrame-refl, IsFrame-trans, set_current-IsFrame, base_reprice-Frames,
}
use tradingapp.TradeCase.Requote.{base_reprice}
use tradingapp.TradeCase.Hedge.{HedgeCurrent, hedge_init, hedge_reprice, lack}
use tradingapp.TradeCase.Profit.{TradeCase9, case9_init, case9_close, case9_reprice}
use tradingapp.TradeCase.Opening.{
  TradeCase4, case4_init, case4_from, case4_change, case4_reprice, open_rounds, limit_of, factor_of,
}

module _ {F : Type 0} where
  -- A step of a class of cases, whose base class is `base`, keeps the side of the case and changes
  -- nothing of the instance but the account of that side.
  abbrev pub StepFrames :
      {C : Type 0}
      → (C → CaseBase F)
      → (C → TradeInstance F → Option (C × TradeInstance F))
      → Type 0
  StepFrames {C} base step =
      (c q : C) (t u : TradeInstance F) → step c t ≡ some (q, u) → Frames (base c) t (base q) u

  -- What holds of the case and the instance that a step answers, if it comes to an end.
  abbrev pub Answers :
      {C : Type 0} → (C → TradeInstance F → Type 0) → Option (C × TradeInstance F) → Type 0
  Answers P none = 0 ≤ 0
  Answers P (some (q, u)) = P q u

  answers :
      {C : Type 0} {P : C → TradeInstance F → Type 0} (r : Option (C × TradeInstance F))
      → ((q : C) (u : TradeInstance F) → r ≡ some (q, u) → P q u)
      → Answers P r
  answers none h = omega arith
  answers (some (q, u)) h = h q u refl

module _ {F : Type 0} ⦃d : Double F⦄ (gw : Gateway F) (wake : TradeAccount F → TradeAccount F) where
  hedge_init-Frames : StepFrames (λ (c : HedgeCurrent F). c.base) (hedge_init gw wake)
  unfolding hedge_init
  hedge_init-Frames c q t u e =
      let side = c.base.side in
      let size = lack side t in
      elim (Option-cases
        (open_position gw wake (send_price size t) size false (account_of side t))) [
          | inl lost ↦ ground (arith, IsFrame-refl side t)
          | inr ((a, id), found) ↦
              ground (arith, found, set_current-IsFrame side a t, IsFrame-refl side t)
        ]

  hedge_reprice-Frames : StepFrames (λ (c : HedgeCurrent F). c.base) (hedge_reprice gw wake)
  unfolding hedge_reprice
  hedge_reprice-Frames c q t u e =
      let side = c.base.side in
      let price = open_price c.ho_size c.base.send_price t in
      elim (Option-cases (change gw wake c.base.main_order_id price 0 (account_of side t))) [
        | inl lost ↦ ground (arith, IsFrame-refl side t)
        | inr ((a, id), found) ↦
            ground (arith, found, set_current-IsFrame side a t, IsFrame-refl side t)
      ]

  case9_close-Frames :
      (price : F) (size : ℕ)
      → StepFrames (λ (c : TradeCase9 F). c.base) (case9_close gw wake price size)
  unfolding case9_close
  case9_close-Frames price size c q t u e =
      let side = c.base.side in
      elim (Option-cases (close_position gw wake price size false (account_of side t))) [
        | inl lost ↦ ground (arith, IsFrame-refl side t)
        | inr ((a, id), found) ↦
            ground (arith, found, set_current-IsFrame side a t, IsFrame-refl side t)
      ]

  case9_init-Frames : StepFrames (λ (c : TradeCase9 F). c.base) (case9_init gw wake)
  unfolding case9_init
  case9_init-Frames c q t u e =
      let side = c.base.side in
      let price = close_price (to_u32 (curr_pos side t)) zero_point t in
      let priced = record c { base = record c.base { send_price = price } } in
      let size = (sizeof_close_order_with_pnl price (account_of side t)).0 in
      ground (arith, case9_close-Frames price size priced q t u, IsFrame-refl side t)

  case9_reprice-Frames : StepFrames (λ (c : TradeCase9 F). c.base) (case9_reprice gw wake)
  unfolding case9_reprice
  case9_reprice-Frames c q t u e =
      let side = c.base.side in
      let price = close_price (to_u32 (curr_pos side t)) zero_point t in
      let size = (sizeof_close_order_with_pnl price (account_of side t)).0 in
      elim (Option-cases (change gw wake c.base.main_order_id price size (account_of side t))) [
        | inl lost ↦ ground (arith, IsFrame-refl side t)
        | inr ((a, id), found) ↦
            ground (arith, found, set_current-IsFrame side a t, IsFrame-refl side t)
      ]

  case4_from-Frames :
      (rounds : List ShareRound)
      → StepFrames (λ (c : TradeCase4 F). c.base) (case4_from gw wake rounds)
  unfolding case4_from
  case4_from-Frames [] c q t u e = ground arith
  case4_from-Frames (first ∷ rounds) c q t u e =
      let side = c.base.side in
      let price = open_price first.position zero_point t in
      elim (Option-cases
        (open_with_done gw wake price first.position trade_send_close (account_of side t))) [
          | inl lost ↦ ground arith
          | inr ((a, id), found) ↦
              let v = set_current side a t in
              let limit = limit_of t.trigger_state t in
              let factor = factor_of t.trigger_state t in
              let frame = set_current-IsFrame side a t in
              elim (Option-cases (open_rounds gw wake limit factor 0 rounds (account_of side v))) [
                | inl stuck ↦ ground (arith, found)
                | inr (b, opened) ↦
                    let w = set_current side b v in
                    let last = IsFrame-trans side t v w frame (set_current-IsFrame side b v) in
                    ground (arith, found, opened, last)
              ]
        ]

  case4_change-Frames : StepFrames (λ (c : TradeCase4 F). c.base) (case4_change gw wake)
  unfolding case4_change
  case4_change-Frames c q t u e =
      let side = c.base.side in
      let price = open_price c.first_order_size zero_point t in
      elim (Option-cases (change gw wake c.first_order price 0 (account_of side t))) [
        | inl lost ↦ ground (arith, IsFrame-refl side t)
        | inr ((a, id), found) ↦
            ground (arith, found, set_current-IsFrame side a t, IsFrame-refl side t)
      ]

  case4_reprice-Frames : StepFrames (λ (c : TradeCase4 F). c.base) (case4_reprice gw wake)
  unfolding case4_reprice
  case4_reprice-Frames c q t u e = elim (Option-cases (base_reprice gw wake c.base t)) [
    | inl lost ↦ ground arith
    | inr ((base, v), repriced) ↦
        let (side, frame) = base_reprice-Frames gw wake c.base t base v repriced in
        let changed : case4_change gw wake (record c { base = base }) v ≡ some (q, u) =
          ground arith in
        let (same, next) = case4_change-Frames (record c { base = base }) q v u changed in
        let own : IsFrame c.base.side v u = ground arith in
        (ground arith, IsFrame-trans c.base.side t v u frame own)
  ]

  -- The first step and the repricing of cases 4 and 9 and of the hedge, which are the cases but for
  -- case 10 that `caseSelection` chooses: what a call does that comes to an end keeps the side of the
  -- case, and changes nothing of the instance but the account of that side. So none of them sends or
  -- changes an order in the opposite account.
  pub selected_cases-Frames :
      (c4 : TradeCase4 F) (c9 : TradeCase9 F) (hedge : HedgeCurrent F) (t : TradeInstance F)
      → Answers (λ q u. Frames c4.base t q.base u) (case4_init gw wake c4 t)
        × Answers (λ q u. Frames c4.base t q.base u) (case4_reprice gw wake c4 t)
        × Answers (λ q u. Frames c9.base t q.base u) (case9_init gw wake c9 t)
        × Answers (λ q u. Frames c9.base t q.base u) (case9_reprice gw wake c9 t)
        × Answers (λ q u. Frames hedge.base t q.base u) (hedge_init gw wake hedge t)
        × Answers (λ q u. Frames hedge.base t q.base u) (hedge_reprice gw wake hedge t)
  selected_cases-Frames c4 c9 hedge t = (
    answers _ (λ q u e. case4_from-Frames t.share_rounds c4 q t u e),
    answers _ (λ q u e. case4_reprice-Frames c4 q t u e),
    answers _ (λ q u e. case9_init-Frames c9 q t u e),
    answers _ (λ q u e. case9_reprice-Frames c9 q t u e),
    answers _ (λ q u e. hedge_init-Frames hedge q t u e),
    answers _ (λ q u e. hedge_reprice-Frames hedge q t u e),
  )
