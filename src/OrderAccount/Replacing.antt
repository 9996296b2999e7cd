-- ===== src/OrderAccount/Replacing.antt =====
-- What `change` does to the account's map.
use tradingapp.Prelude.{ℕ, ◌+◌, ◌^◌, ◌≤◌, ◌<◌, ◌≡◌, ◌≢◌, refl, Option, none, some, arith, lookup}
use tradingapp.Prelude.Word.{add32, add32_small}
use tradingapp.Order.{OrderInfo}
use tradingapp.OrderAccount.{Gateway, OrderAccount, change, find, emplaced, drop_id}
use tradingapp.OrderAccount.Ids.{
  IsConsistent, fresh, emplaced-find, drop_id-find, emplaced-IsConsistent, drop_id-IsConsistent,
}

module _ {F : Type 0} (gw : Gateway F) (original changed : OrderInfo F) (a : OrderAccount F)
    (v : IsConsistent a) (room : a.request_id_generator + 1 < 2 ^ 32) where
  abbrev id : ℕ
  id = add32 a.request_id_generator 1

  abbrev replacement : OrderInfo F
  replacement = record changed { request_id = id }

  change_cases {ℓ} :
      (P : OrderAccount F × Option ℕ → Type ℓ)
      → P (a, none)
      → P (drop_id (emplaced a id replacement) id, none)
      → (changed.size ≤ 30 → P (emplaced a id replacement, some id))
      → P (change gw original changed a)
  unfolding change
  change_cases P refused lost sent = ground arith

  next : id ≡ a.request_id_generator + 1
  next = add32_small _ 1 room

  new : lookup id a.objects ≡ none
  new = fresh a id v (omega (arith, next))

  unfound : find id a ≡ none
  unfolding find
  unfound = ground (arith, new)

  -- A replacement that is sent stands under the next number, with its price and at most 30 lots. One
  -- that is not sent leaves no trace among the orders that the map finds.
  abbrev pub Replaces : OrderAccount F × Option ℕ → Type 0
  Replaces (b, none) = (j : ℕ) → find j b ≡ find j a
  Replaces (b, some k) =
      (k ≡ a.request_id_generator + 1)
      × (changed.size ≤ 30)
      × (find k b ≡ some (record changed { request_id = k }))
      × ((j : ℕ) → j ≢ k → find j b ≡ find j a)

  -- On a consistent account whose generator does not wrap, `change` keeps the account consistent. It
  -- either sends a replacement, under the next number, of at most 30 lots, and leaves the other
  -- orders alone; or it fails, and the map finds the same orders as before.
  pub change-Replaces :
      IsConsistent (change gw original changed a).0 × Replaces (change gw original changed a)
  change-Replaces =
      let w = emplaced-IsConsistent a id replacement v (omega (arith, next)) refl in
      let found = λ (j : ℕ). emplaced-find a id j replacement new in
      (
        change_cases (λ r. IsConsistent r.0) v
            (drop_id-IsConsistent (emplaced a id replacement) id w) (λ _. w),
        change_cases Replaces (λ j. refl)
            (λ j. ground (arith, drop_id-find (emplaced a id replacement) id j, found j, unfound))
            (λ small. (next, small, ground (arith, found id), λ j h. ground (arith, found j))),
      )
