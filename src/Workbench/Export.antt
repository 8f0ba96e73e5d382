-- ===== src/Workbench/Export.antt =====
-- crates/tradar-query-workbench/src/export.rs: a result as CSV. The values that JSON is made of are
-- those of a library, so that part is a parameter (`Json`, `pretty`).
pub mod Csv
use tradar.Base.{
  ℕ, Bool, true, false, ◌||◌, List, [], ◌∷◌, ◌++◌, map, ◌==◌, if◌then◌else◌, any, Text, text, eq,
  join, replace,
}
use tradar.Query.Schema.{QueryResult, table, documents, affected}

-- `Result<String, String>`
pub data Exported : Type 0 where
  ok err : Text → Exported

abbrev pub needs_quotes : ℕ → Bool
needs_quotes c = c == b',' || c == b'"' || c == b'\n' || c == b'\r'

unfoldable pub csv_field : Text → Text
unfolding replace
csv_field field =
    if any needs_quotes field then b'"' ∷ (replace b'"' (text "\"\"") field ++ b'"' ∷ []) else field

unfoldable pub csv_line : List Text → Text
unfolding csv_field join
csv_line fields = join (text ",") (map csv_field fields) ++ b'\n' ∷ []

-- `for row in rows`
unfoldable pub csv_lines : List (List Text) → Text
unfolding csv_line
csv_lines [] = []
csv_lines (row ∷ rows) = csv_line row ++ csv_lines rows

unfoldable pub to_csv : {J : Type 0} → QueryResult J → Exported
unfolding csv_line csv_lines
to_csv (table columns rows truncated) = ok (csv_line columns ++ csv_lines rows)
to_csv (documents items truncated) = err (
    text
      "CSV export needs a table result -- this connector returns documents, use a .json path instead")
to_csv (affected rows) = err (text "nothing to export")

module _ {J : Type 0} (null : J) (string : Text → J) (object : List (Text × J) → J) where
  unfoldable pub cell_to_json : Text → J
  cell_to_json cell = if eq cell (text "NULL") then null else string cell

  -- `zip`, and the `collect` into a `Map` by the parameter
  unfoldable pub fields : List Text → List Text → List (Text × J)
  unfolding cell_to_json
  fields (c ∷ columns) (cell ∷ row) = (c, cell_to_json cell) ∷ fields columns row
  fields _ _ = []

  unfoldable pub to_json : (List J → Exported) → QueryResult J → Exported
  unfolding fields
  to_json pretty (table columns rows truncated) =
      pretty (map (λ row. object (fields columns row)) rows)
  to_json pretty (documents items truncated) = pretty items
  to_json pretty (affected rows) = err (text "nothing to export")
