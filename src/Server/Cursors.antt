-- ===== src/Server/Cursors.antt =====
-- crates/tradar-server/src/server/query.rs: the results that the server keeps for paging, and how the
-- oldest make room for a new one. What a stored result is, and its `approx_bytes`, are arguments.
pub mod Keys
pub mod Bounded
pub mod Opened
use tradar.Base.{
  ℕ, zero, suc, ◌+◌, ◌-◌, Bool, true, false, not, ◌&&◌, ◌||◌, List, [], ◌∷◌, ◌++◌, Option, none,
  some, ltb, ◌==◌, if◌then◌else◌, filter, length,
}
use tradar.Base.Map.{lookup, insert, remove}
use tradar.Server.Subscriptions.{clients}

-- The part of the server's `State` that is about cursors.
pub record Cursors (R : Type 0) : Type 0 where
  pub cursors : List (ℕ × R)
  pub cursor_order : List ℕ
  pub cursor_bytes : List (ℕ × ℕ)
  pub next_cursor : ℕ

abbrev pub max_cursors : ℕ
max_cursors = 16

abbrev pub max_cursor_bytes : ℕ
max_cursor_bytes = 268435456

-- `values().sum()`
unfoldable pub sum : List (ℕ × ℕ) → ℕ
sum [] = 0
sum ((_, n) ∷ m) = n + sum m

abbrev pub or_zero : Option ℕ → ℕ
or_zero none = 0
or_zero (some n) = n

abbrev pub too_many : ℕ → List ℕ → Bool
too_many held order =
    ltb max_cursors (length order) || (ltb max_cursor_bytes held && ltb 1 (length order))

module _ {R : Type 0} where
  -- The `while` loop: the oldest cursors go until the rest is within bounds.
  unfoldable pub evict :
      ℕ → List ℕ → List (ℕ × R) → List (ℕ × ℕ) → List ℕ × (List (ℕ × R) × List (ℕ × ℕ))
  evict held [] cursors bytes = ([], (cursors, bytes))
  evict held (oldest ∷ order) cursors bytes =
      let rest =
        evict (held - or_zero (lookup clients oldest bytes)) order (remove clients oldest cursors)
          (remove clients oldest bytes) in
      if too_many held (oldest ∷ order) then rest else (oldest ∷ order, (cursors, bytes))

  -- The end of `execute`: the new state, and the cursor.
  unfoldable pub open_cursor : (R → ℕ) → R → Cursors R → Cursors R × ℕ
  unfolding sum evict
  open_cursor approx_bytes stored s =
      let cursor = s.next_cursor + 1 in
      let bytes = insert clients cursor (approx_bytes stored) s.cursor_bytes in
      let kept =
        evict (sum bytes) (s.cursor_order ++ cursor ∷ []) (insert clients cursor stored s.cursors)
          bytes in
      (
        record {
          cursors = kept.1.0;
          cursor_order = kept.0;
          cursor_bytes = kept.1.1;
          next_cursor = cursor;
        },
        cursor,
      )

  -- `state.cursors.get(&cursor)` in `fetch`
  unfoldable pub fetch : ℕ → Cursors R → Option R
  fetch cursor s = lookup clients cursor s.cursors

  -- `close_cursor`, without the answer
  unfoldable pub close_cursor : ℕ → Cursors R → Cursors R
  close_cursor cursor s = record s {
    cursor_order = filter (λ c. not (c == cursor)) s.cursor_order;
    cursor_bytes = remove clients cursor s.cursor_bytes;
    cursors = remove clients cursor s.cursors;
  }
