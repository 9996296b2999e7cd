-- ===== src/Prelude/Lists.antt =====
-- Lists measured by native numbers, predicates on lists, and association lists keyed by numbers.
use Prim.Native.Nat.{ℕ, suc, ◌+◌}
use mathlib.Core.Path.{◌≡◌, refl}
use mathlib.Core.List.{List, [], ◌∷◌, ◌++◌, reverse, reverse-cons}
use mathlib.Core.Option.{Option, none, some}
use native.Mathlib.Omega.{arith}
use tradingapp.Prelude.Tests.{◌==◌, if◌then◌else◌}

module _ {ℓ} {A : Type ℓ} where
  abbrev pub length : List A → ℕ
  length [] = 0
  length (x ∷ xs) = suc (length xs)

  abbrev pub All {κ} : (A → Type κ) → List A → Type κ
  All P [] = Unit
  All P (x ∷ xs) = P x × All P xs

  pub length-append : (xs ys : List A) → length (xs ++ ys) ≡ length xs + length ys
  length-append [] ys = omega arith
  length-append (x ∷ xs) ys = omega (arith, length-append xs ys)

module _ {ℓ κ} {A : Type ℓ} where
  pub All-append : (P : A → Type κ) (xs ys : List A) → All P xs → All P ys → All P (xs ++ ys)
  All-append P [] ys p q = q
  All-append P (x ∷ xs) ys (p, ps) q = (p, All-append P xs ys ps q)

  pub All-append_left : (P : A → Type κ) (xs ys : List A) → All P (xs ++ ys) → All P xs
  All-append_left P [] ys p = tt
  All-append_left P (x ∷ xs) ys (p, ps) = (p, All-append_left P xs ys ps)

module _ {ℓ κ} {A : Type ℓ} where
  pub All-reverse : (P : A → Type κ) (xs : List A) → All P xs → All P (reverse xs)
  All-reverse P [] p = tt
  All-reverse P (x ∷ xs) (p, ps) =
      rw (reverse-cons x xs) (All-append P (reverse xs) (x ∷ []) (All-reverse P xs ps) (p, tt))

-- `std::map` and `std::unordered_map` keyed by an order id. `emplace` keeps an entry that is there.
module _ {ℓ} {V : Type ℓ} where
  unfoldable pub lookup : ℕ → List (ℕ × V) → Option V
  lookup k [] = none
  lookup k ((j, v) ∷ m) = if j == k then some v else lookup k m

  unfoldable pub erase : ℕ → List (ℕ × V) → List (ℕ × V)
  erase k [] = []
  erase k ((j, v) ∷ m) = let rest = erase k m in if j == k then rest else (j, v) ∷ rest

  unfoldable pub update : ℕ → V → List (ℕ × V) → List (ℕ × V)
  update k v [] = []
  update k v ((j, w) ∷ m) = if j == k then (j, v) ∷ update k v m else (j, w) ∷ update k v m

  unfoldable pub emplace : ℕ → V → List (ℕ × V) → List (ℕ × V)
  emplace k v [] = (k, v) ∷ []
  emplace k v ((j, w) ∷ m) = if j == k then (j, w) ∷ m else (j, w) ∷ emplace k v m

  pub lookup-erase :
      (k j : ℕ) (m : List (ℕ × V)) → lookup j (erase k m) ≡ (if k == j then none else lookup j m)
  unfolding lookup erase
  lookup-erase k j [] = ground arith
  lookup-erase k j ((i, w) ∷ m) = ground (arith, lookup-erase k j m)

  pub lookup-emplace :
      (k j : ℕ) (v : V) (m : List (ℕ × V))
      → lookup k m ≡ none
      → lookup j (emplace k v m) ≡ (if k == j then some v else lookup j m)
  unfolding lookup emplace
  lookup-emplace k j v [] h = refl
  lookup-emplace k j v ((i, w) ∷ m) h = ground (arith, lookup-emplace k j v m)

  -- Every entry of the key is replaced, so the first one is.
  pub lookup-update :
      (k j : ℕ) (v : V) (m : List (ℕ × V))
      → lookup j (update k v m)
        ≡ (if k == j then elim (lookup k m) [ none ↦ none | some _ ↦ some v ] else lookup j m)
  unfolding lookup update
  lookup-update k j v [] = ground arith
  lookup-update k j v ((i, u) ∷ m) = ground (arith, lookup-update k j v m)
