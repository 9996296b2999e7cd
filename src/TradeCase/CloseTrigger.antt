-- ===== src/TradeCase/CloseTrigger.antt =====
-- `CloseTrigger`: the case that closes the excess of the current account, record by record of its
-- position table. The table is locked while the case walks over it.
use tradingapp.Prelude.{
  ℕ, ◌+◌, Bool, true, false, not, ◌&&◌, ◌||◌, Option, none, some, List, [], ◌∷◌, ltb, ◌==◌, min,
  if◌then◌else◌,
}
use tradingapp.Prelude.Int.{ℤ, ◌-ℤ◌, to_u32}
use tradingapp.Prelude.Word.{mul32, sub32}
use tradingapp.Double.{Double}
use tradingapp.OrderAccount.{Gateway}
use tradingapp.PositionTable.{PositionRecord}
use tradingapp.TradeAccount.State.{TradeAccount}
use tradingapp.TradeAccount.Requests.{close_position}
use tradingapp.TradeAccount.Changes.{change}
use tradingapp.TradeInstance.State.{
  state_price_change, state_failed, state_done, TradeInstance, account_of,
}
use tradingapp.TradeCase.{
  CaseBase, enters, on_current, curr_pos, oppo_pos, is_level, estimation_error,
}

-- `open` and `close` are the two prices.
pub record OrderRep (F : Type 0) : Type 0 where
  pub id : ℕ
  pub size : ℕ
  pub open_price : F
  pub close_price : F
  pub is_executed : Bool

-- `close_size` is left out, as nothing reads it.
pub record CloseTrigger (F : Type 0) : Type 0 where
  pub base : CaseBase F
  pub error : F
  pub orders : List (OrderRep F)

module _ {F : Type 0} where
  -- The excess of the current account, as a `uint32_t`.
  abbrev pub excess_qty : CaseBase F → TradeInstance F → ℕ
  excess_qty c t = to_u32 (curr_pos c.side t -ℤ oppo_pos c.side t)

  -- The orders of a walk, an order in front.
  abbrev pub push_order :
      OrderRep F
      → Option (TradeAccount F × List (OrderRep F))
      → Option (TradeAccount F × List (OrderRep F))
  push_order o none = none
  push_order o (some (a, os)) = some (a, o ∷ os)

  unfoldable pub close_trigger_wait : CloseTrigger F → TradeInstance F → CloseTrigger F
  close_trigger_wait c t =
      if is_level c.base.side t then record c { base = enters state_done c.base } else c

module _ {F : Type 0} ⦃d : Double F⦄ where
  open d use {of_int, add, mul}

  -- The price that an order of a record gets.
  abbrev pub record_price : F → F → ℤ → F
  record_price open_price error sign = add open_price (mul error (of_int sign))

module _ {F : Type 0} ⦃d : Double F⦄ (gw : Gateway F) (wake : TradeAccount F → TradeAccount F) where
  open d use {eq}

  -- After the closing order of a record: the order's share of the excess is taken if it was sent.
  abbrev pub after_record :
      OrderRep F
      → ℕ
      → Option (TradeAccount F × ℕ)
      → (ℕ → TradeAccount F → Option (TradeAccount F × List (OrderRep F)))
      → Option (TradeAccount F × List (OrderRep F))
  after_record o excess none next = none
  after_record o excess (some (a, id)) next =
      if id == 0
      then next excess a
      else push_order (record o { id = id }) (next (sub32 excess o.size) a)

  -- The walk over the records, with the excess that is left.
  unfoldable pub close_records :
      F
      → ℤ
      → ℕ
      → List (PositionRecord F)
      → ℕ
      → TradeAccount F
      → Option (TradeAccount F × List (OrderRep F))
  close_records error sign divisor [] excess a = some (a, [])
  close_records error sign divisor (r ∷ rs) excess a =
      let price = record_price r.open_price error sign in
      let size = min r.open_size excess in
      let order : OrderRep F = record {
        id = 0;
        size = size;
        open_price = r.open_price;
        close_price = price;
        is_executed = false;
      } in
      let rest = λ (left : ℕ) (b : TradeAccount F). close_records error sign divisor rs left b in
      if not r.is_complete && ltb 0 excess
      then after_record order excess (close_position gw wake price (mul32 size divisor) false a)
          rest
      else rest excess a

  -- The state `DONE` for no excess is overwritten.
  unfoldable pub close_trigger_init :
      CloseTrigger F → TradeInstance F → Option (CloseTrigger F × TradeInstance F)
  close_trigger_init c t =
      let side = c.base.side in
      let error = estimation_error t in
      let account = account_of side t in
      on_current side t
        (close_records error c.base.sign t.instance_divisor account.position_table.records
          (excess_qty c.base t) account)
        (λ orders u. some (
          record {
            base = enters (elim orders [ [] ↦ state_failed | _ ∷ _ ↦ state_price_change ]) c.base;
            error = error;
            orders = orders;
          },
          u,
        ))

  -- The orders with their new prices, and how many were changed.
  unfoldable pub change_reps :
      F → ℤ → List (OrderRep F) → TradeAccount F → Option (TradeAccount F × List (OrderRep F) × ℕ)
  change_reps error sign [] a = some (a, [], 0)
  change_reps error sign (o ∷ os) a =
      let price = record_price o.open_price error sign in
      let rest = λ (b : TradeAccount F). change_reps error sign os b in
      if o.is_executed
      then elim (rest a) [ none ↦ none | some (b, ps, n) ↦ some (b, o ∷ ps, n) ]
      else elim (change gw wake o.id price 0 a) [
        | none ↦ none
        | some (b, new_id) ↦ elim (rest b) [
          | none ↦ none
          | some (c, ps, n) ↦
              if new_id == o.id || new_id == 0
              then some (c, record o { is_executed = true } ∷ ps, n)
              else some (c, record o { id = new_id; close_price = price } ∷ ps, n + 1)
        ]
      ]

  -- The case with the answer of the loop over its orders.
  abbrev pub after_change_reps :
      CloseTrigger F
      → TradeInstance F
      → Option (TradeAccount F × List (OrderRep F) × ℕ)
      → Option (CloseTrigger F × TradeInstance F)
  after_change_reps c t none = none
  after_change_reps c t (some (a, orders, nchanged)) =
      on_current c.base.side t (some (a, nchanged)) (λ n u. some (
        record c { base = if n == 0 then enters state_done c.base else c.base; orders = orders },
        u,
      ))

  unfoldable pub close_trigger_reprice :
      CloseTrigger F → TradeInstance F → Option (CloseTrigger F × TradeInstance F)
  close_trigger_reprice start t =
      let new_error = estimation_error t in
      let c =
        if excess_qty start.base t == 0
        then record start { base = enters state_done start.base }
        else start in
      if eq new_error c.error
      then some (c, t)
      else after_change_reps (record c { error = new_error }) t
          (change_reps new_error c.base.sign c.orders (account_of c.base.side t))
