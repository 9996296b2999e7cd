-- ===== src/OrderAccount/Ids.antt =====
-- The numbers of an account's orders: those in the map are not above the generator, each has its
-- object, and the next number is new.
use tradingapp.Prelude.{
  ℕ, ◌≤◌, ◌<◌, ◌≡◌, true, false, none, some, List, [], ◌∷◌, arith, ◌==◌, Bool-cases, Option-cases,
  inl, inr, if◌then◌else◌, lookup, lookup-update, lookup-emplace,
}
use tradingapp.Order.{OrderInfo}
use tradingapp.OrderAccount.{OrderAccount, has, without, with_id, put, drop_id, emplaced, find}

pub has-without :
    (k j : ℕ) (js : List ℕ) → has j (without k js) ≡ (if k == j then false else has j js)
has-without k j [] = ground arith
has-without k j (i ∷ is) = ground (arith, has-without k j is)

pub has-with_id :
    (k j : ℕ) (js : List ℕ) → has j (with_id k js) ≡ (if k == j then true else has j js)
has-with_id k j [] = ground arith
has-with_id k j (i ∷ is) = ground (arith, has-with_id k j is)

module _ {F : Type 0} where
  pub record IsConsistent (a : OrderAccount F) : Type 0 where
    pub bounded : (id : ℕ) → has id a.order_hash ≡ true → id ≤ a.request_id_generator
    pub object_bounded :
        (id : ℕ) (o : OrderInfo F) → lookup id a.objects ≡ some o → id ≤ a.request_id_generator
    pub numbered : (id : ℕ) (o : OrderInfo F) → lookup id a.objects ≡ some o → o.request_id ≡ id
    pub linked :
        (id : ℕ) → has id a.order_hash ≡ true → (o : OrderInfo F) × (lookup id a.objects ≡ some o)

  pub put-find :
      (a : OrderAccount F) (id j : ℕ) (o old : OrderInfo F)
      → find id a ≡ some old
      → find j (put a id o) ≡ (if id == j then some o else find j a)
  unfolding find
  put-find a id j o old e = ground (arith, lookup-update id j o a.objects)

  pub drop_id-find :
      (a : OrderAccount F) (id j : ℕ) → find j (drop_id a id) ≡ (if id == j then none else find j a)
  unfolding find
  drop_id-find a id j = ground (arith, has-without id j a.order_hash)

  pub emplaced-find :
      (a : OrderAccount F) (id j : ℕ) (o : OrderInfo F)
      → lookup id a.objects ≡ none
      → find j (emplaced a id o) ≡ (if id == j then some o else find j a)
  unfolding find
  emplaced-find a id j o e =
      ground (arith, has-with_id id j a.order_hash, lookup-emplace id j o a.objects e)

  pub put-IsConsistent :
      (a : OrderAccount F) (id : ℕ) (o old : OrderInfo F)
      → IsConsistent a
      → find id a ≡ some old
      → o.request_id ≡ id
      → IsConsistent (put a id o)
  unfolding find
  put-IsConsistent a id o old v e n = record {
    bounded = v.bounded;
    object_bounded = λ j x h.
        ground
          (arith, lookup-update id j o a.objects, v.object_bounded j x, v.object_bounded j old);
    numbered = λ j x h. ground (arith, lookup-update id j o a.objects, v.numbered j x);
    linked = λ j h. elim (Bool-cases (id == j)) [
      | inl here ↦ (o, ground (arith, lookup-update id j o a.objects))
      | inr there ↦ let (x, q) = v.linked j h in (x, ground (arith, lookup-update id j o a.objects))
    ];
  }

  pub drop_id-IsConsistent :
      (a : OrderAccount F) (id : ℕ) → IsConsistent a → IsConsistent (drop_id a id)
  drop_id-IsConsistent a id v = record {
    bounded = λ j h. v.bounded j (ground (arith, has-without id j a.order_hash));
    object_bounded = v.object_bounded;
    numbered = v.numbered;
    linked = λ j h. v.linked j (ground (arith, has-without id j a.order_hash));
  }

  pub fresh :
      (a : OrderAccount F) (id : ℕ)
      → IsConsistent a
      → a.request_id_generator < id
      → lookup id a.objects ≡ none
  fresh a id v h = elim (Option-cases (lookup id a.objects)) [
    | inl e ↦ e
    | inr (o, e) ↦ absurd (omega (arith, v.object_bounded id o e))
  ]

  pub emplaced-IsConsistent :
      (a : OrderAccount F) (id : ℕ) (o : OrderInfo F)
      → IsConsistent a
      → a.request_id_generator < id
      → o.request_id ≡ id
      → IsConsistent (emplaced a id o)
  emplaced-IsConsistent a id o v h n =
      let new = λ (j : ℕ). lookup-emplace id j o a.objects (fresh a id v h) in
      record {
        bounded = λ j p. ground (arith, has-with_id id j a.order_hash, v.bounded j);
        object_bounded = λ j x p. ground (arith, new j, v.object_bounded j x);
        numbered = λ j x p. ground (arith, new j, v.numbered j x);
        linked = λ j p. elim (Bool-cases (id == j)) [
          | inl here ↦ (o, ground (arith, new j))
          | inr there ↦
              let (x, q) = v.linked j (ground (arith, has-with_id id j a.order_hash)) in
              (x, ground (arith, new j))
        ];
      }
