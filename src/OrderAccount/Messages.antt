-- ===== src/OrderAccount/Messages.antt =====
-- The messages of the exchange: which orders leave the map, and that a message changes one order.
use tradingapp.Prelude.{
  Option, List, [], ◌∷◌, ◌==◌, ℕ, ◌≡◌, ◌≢◌, refl, ◌∙◌, Bool, true, false, none, some, arith,
  if◌then◌else◌, Option-cases, inl, inr,
}
use tradingapp.Order.{
  stage_cancelled, stage_failed, stage_filled, OrderInfo, ExecutionOrder, OrderCondition,
  cond_pending_new, cond_new, cond_partial, cond_done, cond_canceled, cond_cancel_rejected,
  cond_too_late_to_cancel, cond_pending_change, cond_changed, cond_change_rejected,
  cond_gateway_throttle,
}
use tradingapp.OrderAccount.{
  Callback, on_order_cancel_message, on_order_change_message, OrderAccount, put, drop_id, find,
  handle, on_order, on_fill_message,
}
use tradingapp.OrderAccount.Ids.{put-find, drop_id-find}

-- The conditions after which an order is over.
unfoldable pub is_terminal : OrderCondition → Bool
is_terminal cond_pending_new = false
is_terminal cond_new = false
is_terminal cond_partial = false
is_terminal cond_cancel_rejected = false
is_terminal cond_too_late_to_cancel = false
is_terminal cond_pending_change = false
is_terminal cond_change_rejected = false
is_terminal cond_gateway_throttle = false
is_terminal _ = true

module _ {F C : Type 0} where
  either {ℓ} :
      (P : OrderAccount F → Type ℓ) (b : Bool) (x y : OrderAccount F × C)
      → P x.0
      → P y.0
      → P (if b then x else y).0
  either P true x y p q = p
  either P false x y p q = q

module _ {F : Type 0} (a : OrderAccount F) (id : ℕ) where
  abbrev pub Keeps : Bool → OrderAccount F → Type 0
  Keeps over b =
      (over ≡ true → find id b ≡ none)
      × (over ≡ false → (o : OrderInfo F) × (find id b ≡ some o))
      × ((j : ℕ) → j ≢ id → find j b ≡ find j a)

  put-Keeps : (o old : OrderInfo F) → find id a ≡ some old → Keeps false (put a id o)
  put-Keeps o old e = (
    λ h. cc,
    λ _. (o, ground (arith, put-find a id id o old e)),
    λ j h. ground (arith, put-find a id j o old e),
  )

  drop-Keeps : (o old : OrderInfo F) → find id a ≡ some old → Keeps true (drop_id (put a id o) id)
  drop-Keeps o old e = (
    λ _. ground (arith, drop_id-find (put a id o) id id),
    λ h. cc,
    λ j h. ground (arith, drop_id-find (put a id o) id j, put-find a id j o old e),
  )

  -- Each message ends either in a changed object, or in one whose number leaves the map.
  handle_cases {ℓ} :
      (P : Bool → OrderAccount F → Type ℓ) (c : OrderCondition) (o : OrderInfo F)
      → ((x : OrderInfo F) → x.request_id ≡ o.request_id → P false (put a id x))
      → ((x : OrderInfo F) → x.request_id ≡ o.request_id → P true (drop_id (put a id x) id))
      → P (is_terminal c) (handle c id o a).0
  unfolding handle is_terminal
  handle_cases P cond_pending_new o p q = p _ refl
  handle_cases P cond_new o p q = either (P false) o.on_acknowledgement _ _ (p _ refl) (p _ refl)
  handle_cases P cond_partial o p q = p _ refl
  handle_cases P cond_done o p q = either (P true) o.on_order_done _ _ (q _ refl) (q _ refl)
  handle_cases P cond_canceled o p q = either (P true) o.on_order_cancel _ _ (q _ refl) (q _ refl)
  handle_cases P cond_cancel_rejected o p q =
      either (P false) o.on_order_cancel _ _ (p _ refl) (p _ refl)
  handle_cases P cond_too_late_to_cancel o p q =
      either (P false) o.on_order_cancel _ _ (p _ refl) (p _ refl)
  handle_cases P cond_pending_change o p q = p _ refl
  handle_cases P cond_changed o p q = q _ refl
  handle_cases P cond_change_rejected o p q = p _ refl
  handle_cases P cond_gateway_throttle o p q = p _ refl
  handle_cases P _ o p q = either (P true) o.on_acknowledgement _ _ (q _ refl) (q _ refl)

  on_order_known :
      (order : ExecutionOrder) (old : OrderInfo F)
      → find id a ≡ some old
      → on_order id order a ≡ handle order.condition id (record old { order = order }) a
  unfolding on_order
  on_order_known order old e = ground arith

  on_order_unknown : (order : ExecutionOrder) → find id a ≡ none → on_order id order a ≡ (a, none)
  unfolding on_order
  on_order_unknown order e = ground arith

  -- A message about an order that the map holds takes it out of the map if its condition is
  -- terminal, and keeps it there otherwise. It changes no other order.
  pub on_order-Keeps :
      (order : ExecutionOrder) (old : OrderInfo F)
      → find id a ≡ some old
      → Keeps (is_terminal order.condition) (on_order id order a).0
  on_order-Keeps order old e = rw (on_order_known order old e) (
      handle_cases Keeps order.condition (record old { order = order }) (λ x _. put-Keeps x old e)
        (λ x _. drop-Keeps x old e))

-- What the exchange calls about an order: OnOrder, OnOrderCancel, OnOrderChange or OnFill.
pub data Message (F : Type 0) : Type 0 where
  order_message : ExecutionOrder → Message F
  cancel_message : Message F
  change_message : OrderCondition → Message F
  fill_message : F → ℕ → ℕ → Message F

module _ {F : Type 0} where
  unfoldable pub receive : ℕ → Message F → OrderAccount F → OrderAccount F × Option (Callback F)
  receive id (order_message order) a = on_order id order a
  receive id cancel_message a = (on_order_cancel_message id a, none)
  receive id (change_message condition) a = (on_order_change_message id condition a, none)
  receive id (fill_message price size open_size) a = on_fill_message id price size open_size a

  unfoldable pub receives : List (ℕ × Message F) → OrderAccount F → OrderAccount F
  receives [] a = a
  receives ((id, m) ∷ rest) a = receives rest (receive id m a).0

  receive_unknown :
      (a : OrderAccount F) (id : ℕ) (m : Message F) → find id a ≡ none → receive id m a ≡ (a, none)
  unfolding receive on_order_cancel_message on_order_change_message on_fill_message
  receive_unknown a id (order_message order) gone = on_order_unknown a id order gone
  receive_unknown a id cancel_message gone = ground arith
  receive_unknown a id (change_message condition) gone = ground arith
  receive_unknown a id (fill_message price size open_size) gone = ground arith

  -- A message about an order changes no other one.
  receive-others :
      (a : OrderAccount F) (id j : ℕ) (m : Message F) (old : OrderInfo F)
      → find id a ≡ some old
      → j ≢ id
      → find j (receive id m a).0 ≡ find j a
  unfolding receive on_order_cancel_message on_order_change_message on_fill_message
  receive-others a id j (order_message order) old e other =
      (on_order-Keeps a id order old e).2 j other
  receive-others a id j cancel_message old e other =
      ground (arith, put-find a id j (record old { stage = stage_cancelled }) old e)
  receive-others a id j (change_message condition) old e other =
      ground (arith, put-find a id j (record old { stage = stage_failed }) old e)
  receive-others a id j (fill_message price size open_size) old e other =
      let filled = if open_size == 0 then record old { stage = stage_filled } else old in
      ground (arith, put-find a id j filled old e)

  receives-gone :
      (ms : List (ℕ × Message F)) (a : OrderAccount F) (id : ℕ)
      → find id a ≡ none
      → find id (receives ms a) ≡ none
  unfolding receives
  receives-gone [] a id gone = gone
  receives-gone ((j, m) ∷ ms) a id gone = elim (Option-cases (find j a)) [
    | inl unknown ↦
        let same = receive_unknown a j m unknown in
        receives-gone ms (receive j m a).0 id (rw same gone)
    | inr (old, e) ↦
        let other : id ≢ j = λ k. ground (arith, k) in
        let kept = receive-others a j id m old e other in
        receives-gone ms (receive j m a).0 id (kept ∙ gone)
  ]

module _ {F : Type 0} (a : OrderAccount F) (id : ℕ) where
  -- An order is over once. After a message of OnOrder with a terminal condition about an order in the
  -- map, and after any further messages about it and other orders, the map does not hold the order, and
  -- no message about it, of any of the four callbacks, changes the account or calls a callback of the
  -- order. What the callbacks of other orders do in between is left aside.
  pub on_order_over :
      (order : ExecutionOrder) (old : OrderInfo F) (between : List (ℕ × Message F))
      (later : Message F)
      → find id a ≡ some old
      → is_terminal order.condition ≡ true
      → let b = receives between (on_order id order a).0 in
        (find id b ≡ none) × (receive id later b ≡ (b, none))
  on_order_over order old between later e over =
      let b = receives between (on_order id order a).0 in
      let gone = receives-gone between _ id ((on_order-Keeps a id order old e).0 over) in
      (gone, receive_unknown b id later gone)
