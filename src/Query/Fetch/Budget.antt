-- ===== src/Query/Fetch/Budget.antt =====
-- What a row budget lets through.
use tradar.Base.{
  ℕ, ◌+◌, ◌≤◌, ◌<◌, Bool, true, false, not, List, [], ◌∷◌, ◌++◌, ◌≡◌, ◌⊎◌, refl, ap, inl, inr,
  arith, Bool-cases, is_empty, length, Text,
}
use tradar.Query.Fetch.{max_result_bytes, RowBudget, is_full, row_bytes, keep, read_rows}

-- The bytes that a budget counts for rows.
unfoldable pub rows_bytes : List (List Text) → ℕ
rows_bytes [] = 0
rows_bytes (row ∷ rows) = row_bytes row + rows_bytes rows

-- The rows in front of the last one.
abbrev pub front : {A : Type 0} → List A → List A
front [] = []
front (x ∷ []) = []
front (x ∷ y ∷ ys) = x ∷ front (y ∷ ys)

-- What is kept of `stream` with the budget `b`.
pub record Budgeted (b : RowBudget) (stream kept : List (List Text)) (truncated : Bool)
    : Type 0 where
  pub left : List (List Text)
  pub prefix : stream ≡ kept ++ left
  pub told : truncated ≡ not (is_empty left)
  pub few : length kept + b.rows ≤ b.max_rows ⊎ (kept ≡ [])
  pub small : (b.bytes + rows_bytes (front kept) < max_result_bytes) ⊎ (kept ≡ [])
  pub full :
      truncated ≡ true
      → (b.max_rows ≤ length kept + b.rows) ⊎ (max_result_bytes ≤ b.bytes + rows_bytes kept)

module _ (b : RowBudget) (row : List Text) (stream : List (List Text)) (truncated : Bool) where
  few_more :
      (kept : List (List Text))
      → is_full b ≡ false
      → Budgeted (keep row b) stream kept truncated
      → length (row ∷ kept) + b.rows ≤ b.max_rows
  unfolding is_full keep
  few_more [] f v = ground (arith, f)
  few_more (k ∷ kept) f v = elim v.few [ inl h ↦ omega arith | inr h ↦ absurd (cc) ]

  small_more :
      (kept : List (List Text))
      → is_full b ≡ false
      → Budgeted (keep row b) stream kept truncated
      → b.bytes + rows_bytes (front (row ∷ kept)) < max_result_bytes
  unfolding is_full keep rows_bytes
  small_more [] f v = ground (arith, f)
  small_more (k ∷ kept) f v = elim v.small [ inl h ↦ omega arith | inr h ↦ absurd (cc) ]

  full_more :
      (kept : List (List Text))
      → Budgeted (keep row b) stream kept truncated
      → truncated ≡ true
      → (b.max_rows ≤ length (row ∷ kept) + b.rows)
        ⊎ (max_result_bytes ≤ b.bytes + rows_bytes (row ∷ kept))
  unfolding keep rows_bytes
  full_more kept v t = elim (v.full t) [ inl h ↦ inl (omega arith) | inr h ↦ inr (omega arith) ]

  Budgeted-more :
      (kept : List (List Text))
      → is_full b ≡ false
      → Budgeted (keep row b) stream kept truncated
      → Budgeted b (row ∷ stream) (row ∷ kept) truncated
  Budgeted-more kept f v = record {
    left = v.left;
    prefix = ap (◌∷◌ row) v.prefix;
    told = v.told;
    few = inl (few_more kept f v);
    small = inl (small_more kept f v);
    full = full_more kept v;
  }

-- What a budget lets through of a stream of rows is the front of it, cut exactly if the result
-- is called truncated, and then the budget is spent; it has at most as many rows as the budget
-- allows, and the cells in front of its last row hold less than 64 MiB as the budget counts
-- them.
pub read_rows-Budgeted :
    (b : RowBudget) (stream : List (List Text))
    → Budgeted b stream (read_rows b stream).0 (read_rows b stream).1
unfolding read_rows
read_rows-Budgeted b [] = record {
  left = [];
  prefix = refl;
  told = refl;
  few = inr refl;
  small = inr refl;
  full = λ h. cc;
}
read_rows-Budgeted b (row ∷ stream) = elim (Bool-cases (is_full b)) [
  | inl f ↦ rw f (record {
    left = row ∷ stream;
    prefix = refl;
    told = refl;
    few = inr refl;
    small = inr refl;
    full = λ h. unfold is_full rows_bytes in ground (arith, f);
  })
  | inr f ↦ rw f (Budgeted-more b row stream _ _ f (read_rows-Budgeted (keep row b) stream))
]
