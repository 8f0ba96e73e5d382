-- ===== src/Query/Snippet.antt =====
-- crates/tradar-query/src/snippet.rs: the skeleton of a statement for a table.
use tradar.Base.{
  not, List, [], ◌∷◌, ◌++◌, map, if◌then◌else◌, is_empty, filter, Text, text, join, one_of,
}
use tradar.Query.Schema.{ColumnInfo, SchemaInfo}
use tradar.Query.Edit.{quote_identifier}

pub data CrudOp : Type 0 where
  create read update delete : CrudOp

-- The candidates that are among the columns.
abbrev pub chosen : List Text → List Text → List Text
chosen columns = filter (λ c. one_of c columns)

abbrev pub or_default : List Text → List Text → List Text
or_default [] default = default
or_default (c ∷ cs) default = c ∷ cs

unfoldable pub pick_columns : List Text → List Text → List Text → List Text
pick_columns columns candidates default =
    if is_empty columns then default else or_default (chosen columns candidates) default

abbrev placeholder : Text → Text
placeholder column = text "<" ++ (column ++ text ">")

-- `{} = <{c}>`
abbrev filled_in : Text → Text
filled_in column = quote_identifier column ++ (text " = " ++ placeholder column)

abbrev where_clause : List Text → Text
where_clause [] = text "<condition>"
where_clause (k ∷ ks) = join (text " AND ") (map filled_in (k ∷ ks))

-- One item per line, with a comma behind all but the last.
abbrev bulleted : List Text → Text
bulleted items = join (text ",\n") (map (λ item. text "  " ++ item) items)

abbrev column_names : List ColumnInfo → List Text
column_names = map (λ (c : ColumnInfo). c.name)

abbrev primary_key : List ColumnInfo → List Text
primary_key columns = column_names (filter (λ c. c.primary_key) columns)

unfoldable pub read_snippet : Text → List Text → Text
unfolding quote_identifier join
read_snippet table [] = text "SELECT * FROM " ++ (table ++ text " LIMIT 100;")
read_snippet table (c ∷ cs) =
    text "SELECT "
    ++ (join (text ", ") (map quote_identifier (c ∷ cs))
        ++ (text " FROM " ++ (table ++ text " LIMIT 100;")))

unfoldable pub create_snippet : Text → List Text → List Text → Text
unfolding pick_columns quote_identifier join
create_snippet table columns [] =
    text "INSERT INTO " ++ (table ++ text " (<column>) VALUES (<value>);")
create_snippet table columns (a ∷ all_columns) =
    let picked = pick_columns columns (a ∷ all_columns) (a ∷ all_columns) in
    text "INSERT INTO "
    ++ (table
        ++ (text " (\n"
            ++ (bulleted (map quote_identifier picked)
                ++ (text "\n) VALUES (\n" ++ (bulleted (map placeholder picked) ++ text "\n);")))))

abbrev set_clause : List Text → Text
set_clause [] = text "  <column> = <value>"
set_clause (c ∷ cs) = bulleted (map filled_in (c ∷ cs))

unfoldable pub update_snippet : Text → List Text → List Text → List Text → Text
unfolding pick_columns quote_identifier join
update_snippet table columns all_columns key =
    let settable = or_default (filter (λ c. not (one_of c key)) all_columns) all_columns in
    text "UPDATE "
    ++ (table
        ++ (text " SET\n"
            ++ (set_clause (pick_columns columns all_columns settable)
                ++ (text "\nWHERE " ++ (where_clause key ++ text ";")))))

unfoldable pub delete_snippet : Text → List Text → List Text → List Text → Text
unfolding pick_columns quote_identifier join
delete_snippet table columns all_columns key =
    text "DELETE FROM "
    ++ (table
        ++ (text " WHERE " ++ (where_clause (pick_columns columns all_columns key) ++ text ";")))

unfoldable pub build_crud_snippet : SchemaInfo → CrudOp → List Text → Text
unfolding read_snippet create_snippet update_snippet delete_snippet quote_identifier
build_crud_snippet entry read columns =
    read_snippet (quote_identifier entry.name) (chosen columns (column_names entry.columns))
build_crud_snippet entry create columns =
    create_snippet (quote_identifier entry.name) columns (column_names entry.columns)
build_crud_snippet entry update columns =
    update_snippet (quote_identifier entry.name) columns (column_names entry.columns)
      (primary_key entry.columns)
build_crud_snippet entry delete columns =
    delete_snippet (quote_identifier entry.name) columns (column_names entry.columns)
      (primary_key entry.columns)
