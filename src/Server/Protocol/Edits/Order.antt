-- ===== src/Server/Protocol/Edits/Order.antt =====
-- What `order_insert_values` does to the order of the columns.
use tradar.Base.{
  ℕ, ◌≤◌, List, [], ◌∷◌, some, ◌≡◌, refl, ◌∙◌, inl, inr, arith, leb, ◌==◌, Bool-cases, filter, All,
  Text,
}
use tradar.Base.Json.{Value, to_array, items_of-values}
use tradar.Server.Protocol.Edits.{rank, insert_by, sort_by_key, order_insert_values}

module _ {A : Type 0} (key : A → ℕ) where
  -- Every entry's key is at least that of the entries in front of it.
  abbrev pub Sorted : List A → Type 0
  Sorted [] = Unit
  Sorted (x ∷ xs) = All (λ y. key x ≤ key y) xs × Sorted xs

  All-insert_by :
      (n : ℕ) (x : A) (xs : List A)
      → n ≤ key x
      → All (λ y. n ≤ key y) xs
      → All (λ y. n ≤ key y) (insert_by key x xs)
  unfolding insert_by
  All-insert_by n x [] h a = (h, tt)
  All-insert_by n x (y ∷ ys) h a = ground (arith, All-insert_by n x ys h a.1, a)

  All-le : (m n : ℕ) (xs : List A) → m ≤ n → All (λ y. n ≤ key y) xs → All (λ y. m ≤ key y) xs
  All-le m n [] h a = tt
  All-le m n (x ∷ xs) h a = (omega (arith, a.0), All-le m n xs h a.1)

  insert_by-Sorted : (x : A) (xs : List A) → Sorted xs → Sorted (insert_by key x xs)
  unfolding insert_by
  insert_by-Sorted x [] s = (tt, tt)
  insert_by-Sorted x (y ∷ ys) s = elim (Bool-cases (leb (key x) (key y))) [
    | inl e ↦ rw e (let le : key x ≤ key y = ground arith in ((le, All-le _ _ ys le s.0), s))
    | inr e ↦ rw e (All-insert_by (key y) x ys (ground arith) s.0, insert_by-Sorted x ys s.1)
  ]

  abbrev pub with_key : ℕ → List A → List A
  with_key k = filter (λ x. key x == k)

  insert_by-with_key :
      (k : ℕ) (x : A) (xs : List A) → with_key k (insert_by key x xs) ≡ with_key k (x ∷ xs)
  unfolding insert_by
  insert_by-with_key k x [] = refl
  insert_by-with_key k x (y ∷ ys) = ground (arith, insert_by-with_key k x ys)

  -- Sorting puts the keys in order and moves no two entries with equal keys past each other.
  pub sort_by_key-Sorted :
      (xs : List A)
      → Sorted (sort_by_key key xs) × ((k : ℕ) → with_key k (sort_by_key key xs) ≡ with_key k xs)
  unfolding sort_by_key
  sort_by_key-Sorted [] = (tt, λ k. refl)
  sort_by_key-Sorted (x ∷ xs) =
      let (s, same) = sort_by_key-Sorted xs in
      (
        insert_by-Sorted x (sort_by_key key xs) s,
        λ k. insert_by-with_key k x (sort_by_key key xs) ∙ (rw (same k) refl),
      )

-- The columns of an insertion stand in the order of the names given, those without a name last,
-- and columns of equal rank keep the order in which they came; none is lost or added.
pub order_insert_values-Sorted :
    (values : List (Text × Text)) (names : List Value)
    → let ordered = order_insert_values values (some (to_array names)) in
      Sorted (λ v. rank names v.0) ordered
      × ((k : ℕ)
          → with_key (λ v. rank names v.0) k ordered ≡ with_key (λ v. rank names v.0) k values)
unfolding order_insert_values
order_insert_values-Sorted values names =
    rw (items_of-values names) (sort_by_key-Sorted (λ v. rank names v.0) values)
