-- ===== src/Base/Map.antt =====
-- A `HashMap` as an association list: what it holds is read by `lookup` alone. The test on keys is
-- an argument, with the fact that it decides equality.
use tradar.Base.{
  Bool, true, false, not, ◌&&◌, ◌||◌, List, [], ◌∷◌, ◌++◌, filter, Option, none, some, ◌≡◌, ◌↔◌,
  refl, arith, if◌then◌else◌,
}

pub record Key (K : Type 0) : Type 0 where
  pub same : K → K → Bool
  pub same_iff : (a b : K) → (same a b ≡ true) ↔ (a ≡ b)

module _ {K V : Type 0} (key : Key K) where
  unfoldable pub lookup : K → List (K × V) → Option V
  lookup k [] = none
  lookup k ((j, v) ∷ m) = if key.same j k then some v else lookup k m

  unfoldable pub insert : K → V → List (K × V) → List (K × V)
  insert k v [] = (k, v) ∷ []
  insert k v ((j, w) ∷ m) = if key.same j k then (k, v) ∷ m else (j, w) ∷ insert k v m

  unfoldable pub remove : K → List (K × V) → List (K × V)
  remove k [] = []
  remove k ((j, v) ∷ m) = if key.same j k then remove k m else (j, v) ∷ remove k m

  pub lookup-insert :
      (k j : K) (v : V) (m : List (K × V))
      → lookup j (insert k v m) ≡ (if key.same k j then some v else lookup j m)
  unfolding lookup insert
  lookup-insert k j v [] = refl
  lookup-insert k j v ((i, w) ∷ m) =
      ground (arith, key.same_iff k j, key.same_iff i k, key.same_iff i j, lookup-insert k j v m)

  pub lookup-remove :
      (k j : K) (m : List (K × V))
      → lookup j (remove k m) ≡ (if key.same k j then none else lookup j m)
  unfolding lookup remove
  lookup-remove k j [] = ground arith
  lookup-remove k j ((i, w) ∷ m) =
      ground (arith, key.same_iff k j, key.same_iff i k, key.same_iff i j, lookup-remove k j m)

module _ {K : Type 0} (key : Key K) where
  pub same_refl : (k : K) → key.same k k ≡ true
  same_refl k = (key.same_iff k k).1 refl

  -- Is `k` among the items?
  unfoldable pub contains : K → List K → Bool
  contains k [] = false
  contains k (j ∷ js) = key.same j k || contains k js

  -- No item occurs twice.
  abbrev pub Distinct : List K → Type 0
  Distinct [] = Unit
  Distinct (k ∷ ks) = (contains k ks ≡ false) × Distinct ks

  pub contains-append :
      (k : K) (xs ys : List K) → contains k (xs ++ ys) ≡ (contains k xs || contains k ys)
  unfolding contains
  contains-append k [] ys = refl
  contains-append k (x ∷ xs) ys = ground (arith, contains-append k xs ys)

  pub contains-filter_out :
      (k j : K) (xs : List K)
      → contains k (filter (λ x. not (key.same x j)) xs) ≡ (contains k xs && not (key.same j k))
  unfolding contains
  contains-filter_out k j [] = refl
  contains-filter_out k j (x ∷ xs) =
      ground
        (arith, contains-filter_out k j xs, key.same_iff x j, key.same_iff x k, key.same_iff j k)

  pub Distinct-filter_out :
      (j : K) (xs : List K) → Distinct xs → Distinct (filter (λ x. not (key.same x j)) xs)
  Distinct-filter_out j [] h = tt
  Distinct-filter_out j (x ∷ xs) h =
      ground (arith, Distinct-filter_out j xs h.1, contains-filter_out x j xs)

  pub Distinct-concat :
      (k : K) (xs : List K) → Distinct xs → contains k xs ≡ false → Distinct (xs ++ k ∷ [])
  unfolding contains
  Distinct-concat k [] h n = (refl, tt)
  Distinct-concat k (x ∷ xs) h n = ground (
    arith,
    Distinct-concat k xs h.1,
    contains-append x xs (k ∷ []),
    key.same_iff k x,
    key.same_iff x k,
  )
