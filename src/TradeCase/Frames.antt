-- ===== src/TradeCase/Frames.antt =====
-- What the steps of the cases leave alone: an instance whose current account changed, and nothing else.
use tradingapp.Prelude.{
  ℕ, ◌≡◌, refl, Option, none, some, List, [], ◌∷◌, arith, inl, inr, Option-cases,
}
use tradingapp.Prelude.Int.{pos_part, to_i32}
use tradingapp.Double.{Double}
use tradingapp.OrderAccount.{Gateway}
use tradingapp.TradeAccount.State.{TradeAccount, get_position}
use tradingapp.TradeAccount.Pending.{send_pending_orders}
use tradingapp.TradeInstance.State.{Side, long_side, short_side, TradeInstance, account_of}
use tradingapp.TradeCase.{CaseBase, set_current}
use tradingapp.TradeCase.RequoteLoop.{requote_loop}
use tradingapp.TradeCase.Requote.{
  add_orders, send_requote_orders, send_anew, replace_orders, change_requote_orders,
  update_requote_orders, send_queue, base_reprice, live_orders, change_each, better_price,
  residual_of, requote_start, step_price,
}

module _ {F : Type 0} where
  -- `u` is `t` but for the account of a side.
  abbrev pub IsFrame : Side → TradeInstance F → TradeInstance F → Type 0
  IsFrame side t u = u ≡ set_current side (account_of side u) t

  pub set_current-IsFrame :
      (side : Side) (a : TradeAccount F) (t : TradeInstance F)
      → IsFrame side t (set_current side a t)
  set_current-IsFrame long_side a t = refl
  set_current-IsFrame short_side a t = refl

  pub IsFrame-refl : (side : Side) (t : TradeInstance F) → IsFrame side t t
  IsFrame-refl long_side t = refl
  IsFrame-refl short_side t = refl

  pub IsFrame-trans :
      (side : Side) (t u w : TradeInstance F)
      → IsFrame side t u
      → IsFrame side u w
      → IsFrame side t w
  IsFrame-trans long_side t u w h k = ground arith
  IsFrame-trans short_side t u w h k = ground arith

  -- A step that keeps the case's side and changes only the account of that side.
  abbrev pub Frames : CaseBase F → TradeInstance F → CaseBase F → TradeInstance F → Type 0
  Frames c t q u = (q.side ≡ c.side) × IsFrame c.side t u

  -- Every answer of a step is such.
  abbrev pub AllFrames :
      CaseBase F → TradeInstance F → Option (CaseBase F × TradeInstance F) → Type 0
  AllFrames c t r = (q : CaseBase F) (u : TradeInstance F) → r ≡ some (q, u) → Frames c t q u

module _ {F : Type 0} where
  add_orders-Frames :
      (c : CaseBase F) (t : TradeInstance F) (r : Option (TradeAccount F × List ℕ))
      → AllFrames c t (add_orders c t r)
  add_orders-Frames c t none q u e = ground arith
  add_orders-Frames c t (some (a, ids)) q u e = ground (arith, set_current-IsFrame c.side a t)

  replace_orders-Frames :
      (c : CaseBase F) (t : TradeInstance F) (r : Option (TradeAccount F × List ℕ))
      → AllFrames c t (replace_orders c t r)
  replace_orders-Frames c t none q u e = ground arith
  replace_orders-Frames c t (some (a, ids)) q u e = ground (arith, set_current-IsFrame c.side a t)

module _ {F : Type 0} ⦃d : Double F⦄ (gw : Gateway F) (wake : TradeAccount F → TradeAccount F) where
  send_requote_orders-Frames :
      (c : CaseBase F) (t : TradeInstance F) → AllFrames c t (send_requote_orders gw wake c t)
  unfolding send_requote_orders
  send_requote_orders-Frames c t q u e =
      let account = account_of c.side t in
      let residual = residual_of t.max_pos account.tranch_counter (get_position account) in
      let n = pos_part (to_i32 residual) in
      let first = requote_start c.sign t in
      let sent = requote_loop gw wake (step_price first c.sign t) n t.base_qty 0 n account in
      let priced = record c { requote_price = first } in
      ground (arith, add_orders-Frames priced t sent q u, IsFrame-refl c.side t)

  send_anew-Frames :
      (c : CaseBase F) (t : TradeInstance F) (r : Option (TradeAccount F))
      → AllFrames c t (send_anew gw wake c t r)
  send_anew-Frames c t none q u e = ground arith
  send_anew-Frames c t (some a) q u e =
      let v = set_current c.side a t in
      let (side, frame) = send_requote_orders-Frames c v q u e in
      (side, IsFrame-trans c.side t v u (set_current-IsFrame c.side a t) frame)

  change_requote_orders-Frames :
      (kept : List ℕ) (c : CaseBase F) (t : TradeInstance F)
      → AllFrames c t (change_requote_orders gw wake kept c t)
  unfolding change_requote_orders
  change_requote_orders-Frames [] c t q u e =
      send_anew-Frames (record c { requote_orders = [] }) t _ q u e
  change_requote_orders-Frames (id ∷ ids) c t q u e =
      elim (Option-cases (better_price c.requote_price t)) [
        | inl worse ↦ ground (arith, IsFrame-refl c.side t)
        | inr (price, better) ↦
            let priced = record c { requote_price = price } in
            let changed =
              change_each gw wake price c.sign t.mpv_value 0 (id ∷ ids) (account_of c.side t) in
            ground (arith, better, replace_orders-Frames priced t changed q u)
      ]

  update_requote_orders-Frames :
      (c : CaseBase F) (t : TradeInstance F) → AllFrames c t (update_requote_orders gw wake c t)
  unfolding update_requote_orders
  update_requote_orders-Frames c t q u e =
      let kept = live_orders gw wake (account_of c.side t) c.requote_orders in
      ground (arith, change_requote_orders-Frames kept c t q u, IsFrame-refl c.side t)

  send_queue-Frames :
      (c : CaseBase F) (t : TradeInstance F) (r : Option (CaseBase F × TradeInstance F))
      → AllFrames c t r
      → AllFrames c t (send_queue gw wake r)
  unfolding send_queue
  send_queue-Frames c t none h q u e = ground arith
  send_queue-Frames c t (some (p, v)) h q u e =
      let (side, frame) = h p v refl in
      elim (Option-cases (send_pending_orders gw wake (account_of p.side v))) [
        | inl lost ↦ ground arith
        | inr (a, sent) ↦
            let w = set_current c.side a v in
            let last = IsFrame-trans c.side t v w frame (set_current-IsFrame c.side a v) in
            ground (arith, sent, last)
      ]

  -- Repricing by the base class keeps the side of the case, and changes nothing of the instance but
  -- the account of that side.
  pub base_reprice-Frames :
      (c : CaseBase F) (t : TradeInstance F) → AllFrames c t (base_reprice gw wake c t)
  unfolding base_reprice
  base_reprice-Frames c t q u e =
      send_queue-Frames c t _
        (λ p v h. ground (arith, update_requote_orders-Frames c t p v, IsFrame-refl c.side t)) q u e
