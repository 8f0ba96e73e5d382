-- ===== src/Query/Edit.antt =====
-- crates/tradar-query/src/edit.rs: statements built from an edit of a row of the grid, from a new
-- row and from a change of a table's design.
pub mod Single
pub mod Reader
pub mod ReadBack
pub mod Requests
use tradar.Base.{
  ℕ, Bool, true, false, not, ◌&&◌, List, [], ◌∷◌, ◌++◌, map, Option, none, some, ◌==◌,
  if◌then◌else◌, is_empty, Text, text, eq, replace, join, split, trim,
}

-- A column with the value that it holds or is to hold.
abbrev pub Pair : Type 0
Pair = Text × Text

pub data RowChange : Type 0 where
  set_value : Text → Text → RowChange
  set_values : List Pair → RowChange
  delete_row : RowChange

pub record RowEdit : Type 0 where
  pub table : Text
  pub key : List Pair
  pub change : RowChange

-- `q`, the text with every `q` doubled, `q`
abbrev pub enclosed : ℕ → Text → Text
enclosed q s = q ∷ (replace q (q ∷ q ∷ []) s ++ q ∷ [])

unfoldable pub quote_identifier : Text → Text
quote_identifier name = join (text ".") (map (enclosed b'"') (split (λ c. c == b'.') name))

unfoldable pub sql_literal : Text → Text
sql_literal value = if eq value (text "NULL") then text "NULL" else enclosed b'\'' value

unfoldable pub key_condition : Pair → Text
key_condition (column, value) =
    if eq value (text "NULL")
    then quote_identifier column ++ text " IS NULL"
    else quote_identifier column ++ (text " = " ++ sql_literal value)

unfoldable pub assignment : Pair → Text
assignment (column, value) = quote_identifier column ++ (text " = " ++ sql_literal value)

unfoldable pub change_sql : Text → Text → RowChange → Text
change_sql table where_clause (set_value column value) =
    text "UPDATE "
    ++ (table
        ++ (text " SET "
            ++ (quote_identifier column
                ++ (text " = " ++ (sql_literal value ++ (text " WHERE " ++ where_clause))))))
change_sql table where_clause (set_values pairs) =
    text "UPDATE "
    ++ (table
        ++ (text " SET "
            ++ (join (text ", ") (map assignment pairs) ++ (text " WHERE " ++ where_clause))))
change_sql table where_clause delete_row =
    text "DELETE FROM " ++ (table ++ (text " WHERE " ++ where_clause))

unfoldable pub build_sql_edit : RowEdit → Text
unfolding quote_identifier sql_literal key_condition assignment change_sql
build_sql_edit edit =
    change_sql (quote_identifier edit.table) (join (text " AND ") (map key_condition edit.key))
      edit.change

unfoldable pub build_sql_insert : Text → List Pair → Text
unfolding quote_identifier sql_literal
build_sql_insert table values =
    text "INSERT INTO "
    ++ (quote_identifier table
        ++ (text " ("
            ++ (join (text ", ") (map (λ p. quote_identifier p.0) values)
                ++ (text ") VALUES ("
                    ++ (join (text ", ") (map (λ p. sql_literal p.1) values) ++ text ")")))))

pub record NewColumn : Type 0 where
  pub name : Text
  pub type_name : Text
  pub nullable : Bool
  pub primary_key : Bool

pub data TableDesignerOp : Type 0 where
  add_column : Text → Text → Text → Bool → Option Text → TableDesignerOp
  drop_column : Text → Text → TableDesignerOp
  rename_table : Text → Text → TableDesignerOp
  create_table : Text → List NewColumn → TableDesignerOp

-- `default.as_deref().filter(|d| !d.trim().is_empty())`, as it is appended
abbrev default_clause : Option Text → Text
default_clause none = []
default_clause (some d) = if is_empty (trim d) then [] else text " DEFAULT " ++ trim d

unfoldable pub column_line : NewColumn → Text
column_line c =
    quote_identifier c.name
    ++ (text " "
        ++ (trim c.type_name
            ++ (if c.primary_key
                then text " PRIMARY KEY"
                else (if not c.nullable then text " NOT NULL" else []))))

unfoldable pub build_table_ddl : TableDesignerOp → Text
unfolding quote_identifier column_line
build_table_ddl (add_column table column type_name nullable default) =
    text "ALTER TABLE "
    ++ (quote_identifier table
        ++ (text " ADD COLUMN "
            ++ (quote_identifier column
                ++ (text " "
                    ++ (trim type_name
                        ++ ((if not nullable then text " NOT NULL" else [])
                            ++ default_clause default))))))
build_table_ddl (drop_column table column) =
    text "ALTER TABLE "
    ++ (quote_identifier table ++ (text " DROP COLUMN " ++ quote_identifier column))
build_table_ddl (rename_table table new_name) =
    text "ALTER TABLE "
    ++ (quote_identifier table ++ (text " RENAME TO " ++ quote_identifier new_name))
build_table_ddl (create_table table columns) =
    text "CREATE TABLE "
    ++ (quote_identifier table
        ++ (text " (\n  " ++ (join (text ",\n  ") (map column_line columns) ++ text "\n)")))
