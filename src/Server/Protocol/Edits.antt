-- ===== src/Server/Protocol/Edits.antt =====
-- crates/tradar-server/src/protocol.rs: the edits of rows that a client sends.
pub mod ReadBack
pub mod Order
use tradar.Base.{
  ℕ, suc, Bool, false, List, [], ◌∷◌, ◌++◌, Option, none, some, leb, if◌then◌else◌, is_empty, Text,
  text, eq,
}
use tradar.Base.Json.{
  Value, string, object, members_of, as_str, as_array, as_object, find_member, get,
}
use tradar.Base.Result.{Result, ok, err, ◌>>=◌, ok_or, collect}
use tradar.Query.Edit.{RowEdit, RowChange, set_value, set_values, delete_row}
use tradar.Query.Source.{and_then}
use tradar.Server.Protocol.Error.{RpcError, invalid}
use tradar.Server.Protocol.Stored.{usize_max}

-- A member whose value has to be a string; `path` is what stands in front of its name in the error.
unfoldable pub string_member : Text → Text × Value → Result (Text × Text) RpcError
unfolding invalid
string_member path (column, value) = do
  v ← ok_or (invalid (text "`" ++ (path ++ (column ++ text "` must be a string")))) (as_str value)
  ok (column, v)

abbrev pub both : RpcError → Option Text → Option Text → Result (Text × Text) RpcError
both e (some column) (some value) = ok (column, value)
both e _ _ = err e

-- An entry of a list of cells.
unfoldable pub cell : Value → Result (Text × Text) RpcError
unfolding invalid get
cell item =
    both (invalid (text "each `change.set` entry needs string `column` and `value`"))
      (and_then (get (text "column") item) as_str) (and_then (get (text "value") item) as_str)

abbrev pub not_empty : List (Text × Text) → Result RowChange RpcError
not_empty [] = err (invalid (text "`change.set` must not be empty"))
not_empty (p ∷ ps) = ok (set_values (p ∷ ps))

abbrev pub several : Option (List Value) → Value → Result RowChange RpcError
several (some items) set = do pairs ← collect cell items; not_empty pairs
several none set = do
  (column, value) ←
      both (invalid (text "`change.set` needs string `column` and `value`"))
        (and_then (get (text "column") set) as_str) (and_then (get (text "value") set) as_str)
  ok (set_value column value)

unfoldable pub parse_set : Value → Result RowChange RpcError
unfolding cell collect invalid get
parse_set set = several (as_array set) set

abbrev pub no_change : RpcError
no_change = invalid (text "`change` must be \"delete\" or {set: {column, value}}")

unfoldable pub parse_change : Option Value → Result RowChange RpcError
unfolding parse_set invalid
parse_change (some (string s)) = if eq s (text "delete") then ok delete_row else err no_change
parse_change (some (object ms)) = do
  set ←
      ok_or (invalid (text "`change` must be \"delete\" or {set: {...}}"))
        (find_member (text "set") (members_of ms))
  parse_set set
parse_change _ = err no_change

unfoldable pub parse_row_edit : Value → Result RowEdit RpcError
unfolding get invalid string_member collect parse_change
parse_row_edit params = do
  table ←
      ok_or (invalid (text "`table` must be a string"))
        (and_then (get (text "table") params) as_str)
  members ←
      ok_or (invalid (text "`key` must be an object of column -> value"))
        (and_then (get (text "key") params) as_object)
  key ← collect (string_member (text "key.")) members
  change ← parse_change (get (text "change") params)
  ok (record { table = table; key = key; change = change })

abbrev pub some_values : List (Text × Text) → Result (List (Text × Text)) RpcError
some_values [] = err (invalid (text "`insert` needs at least one column"))
some_values (v ∷ vs) = ok (v ∷ vs)

unfoldable pub parse_insert_values : Value → Result (List (Text × Text)) RpcError
unfolding invalid string_member collect
parse_insert_values insert = do
  members ←
      ok_or (invalid (text "`insert` must be an object of column -> value")) (as_object insert)
  values ← collect (string_member (text "insert.")) members
  some_values values

abbrev pub is_named : Text → Value → Bool
is_named column (string s) = eq s column
is_named column _ = false

unfoldable pub position_of : Text → List Value → Option ℕ
position_of column [] = none
position_of column (n ∷ names) =
    let later = position_of column names in
    if is_named column n then some 0 else elim later [ none ↦ none | some i ↦ some (suc i) ]

abbrev pub or_last : Option ℕ → ℕ
or_last none = usize_max
or_last (some i) = i

unfoldable pub rank : List Value → Text → ℕ
unfolding position_of
rank names column = or_last (position_of column names)

-- `sort_by_key`, which keeps the order of entries with equal keys
unfoldable pub insert_by : {A : Type 0} → (A → ℕ) → A → List A → List A
insert_by key x [] = x ∷ []
insert_by key x (y ∷ ys) =
    let rest = insert_by key x ys in if leb (key x) (key y) then x ∷ y ∷ ys else y ∷ rest

unfoldable pub sort_by_key : {A : Type 0} → (A → ℕ) → List A → List A
unfolding insert_by
sort_by_key key [] = []
sort_by_key key (x ∷ xs) = insert_by key x (sort_by_key key xs)

abbrev pub by_names : Option (List Value) → List (Text × Text) → List (Text × Text)
by_names none values = values
by_names (some names) values = sort_by_key (λ v. rank names v.0) values

unfoldable pub order_insert_values : List (Text × Text) → Option Value → List (Text × Text)
unfolding rank sort_by_key
order_insert_values values order = by_names (and_then order as_array) values
