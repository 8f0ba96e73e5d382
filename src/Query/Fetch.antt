-- ===== src/Query/Fetch.antt =====
-- crates/tradar-query/src/fetch.rs: how many rows of a result are kept.
-- `read_rows` is the loop with which the SQL connectors read a stream of rows
-- (crates/tradar-connector-mysql/src/lib.rs, `run`, and its kin), a row by its cells' texts.
pub mod Budget
use tradar.Base.{
  ℕ, suc, ◌+◌, ◌*◌, Bool, true, false, ◌||◌, List, [], ◌∷◌, Option, none, some, leb, if◌then◌else◌,
  is_empty, min, max, Text, len,
}
use tradar.Query.Schema.{QueryResult, table}

abbrev pub max_rows_default : ℕ
max_rows_default = 10000

abbrev pub max_result_bytes : ℕ
max_result_bytes = 67108864

-- `with_max_rows`: what the task's rows are set to
unfoldable pub with_max_rows : ℕ → ℕ
with_max_rows rows = min (max rows 1) (max_rows_default * 10)

-- `max_rows`: the task's rows, if they are set
unfoldable pub max_rows : Option ℕ → ℕ
max_rows none = max_rows_default
max_rows (some n) = n

pub record RowBudget : Type 0 where
  pub rows : ℕ
  pub bytes : ℕ
  pub max_rows : ℕ

-- `RowBudget::default`
unfoldable pub new_budget : Option ℕ → RowBudget
unfolding max_rows
new_budget scope = record { rows = 0; bytes = 0; max_rows = max_rows scope }

unfoldable pub is_full : RowBudget → Bool
is_full b = leb b.max_rows b.rows || leb max_result_bytes b.bytes

-- `row.iter().map(|cell| cell.len() + 24).sum()`
unfoldable pub row_bytes : List Text → ℕ
unfolding len
row_bytes [] = 0
row_bytes (cell ∷ cells) = len cell + 24 + row_bytes cells

unfoldable pub keep : List Text → RowBudget → RowBudget
unfolding row_bytes
keep row b = record b { rows = b.rows + 1; bytes = b.bytes + row_bytes row }

-- The rows that are kept, and whether the result is truncated.
unfoldable pub read_rows : RowBudget → List (List Text) → List (List Text) × Bool
unfolding is_full keep
read_rows b [] = ([], false)
read_rows b (row ∷ stream) =
    let rest = read_rows (keep row b) stream in
    if is_full b then ([], true) else (row ∷ rest.0, rest.1)

-- The columns' names come with the first row.
unfoldable pub read_table : {J : Type 0} → Option ℕ → List Text → List (List Text) → QueryResult J
unfolding new_budget read_rows
read_table scope columns stream =
    let read = read_rows (new_budget scope) stream in
    table (if is_empty stream then [] else columns) read.0 read.1
