-- ===== src/Server/Protocol/Edits/ReadBack.antt =====
-- `parse_row_edit` reads what its documentation describes.
use tradar.Base.{ap, List, [], ◌∷◌, map, some, ◌≡◌, ◌≢◌, refl, Text, text, eq}
use tradar.Base.Json.{
  Value, string, to_array, to_object, members_of-members, items_of-values, get, keys, names,
}
use tradar.Base.Map.{Distinct}
use tradar.Base.Result.{Result, ok, collect}
use tradar.Query.Edit.{RowEdit, RowChange, set_value, set_values, delete_row}
use tradar.Server.Protocol.Edits.{string_member, cell, parse_set, parse_change, parse_row_edit}

-- `{"column": "name", "value": "x"}`
abbrev pub cell_json : Text × Text → Value
cell_json (column, value) =
    to_object ((text "column", string column) ∷ (text "value", string value) ∷ [])

abbrev pub change_json : RowChange → Value
change_json (set_value column value) = to_object ((text "set", cell_json (column, value)) ∷ [])
change_json (set_values pairs) = to_object ((text "set", to_array (map cell_json pairs)) ∷ [])
change_json delete_row = string (text "delete")

abbrev pub named : Text × Text → Text × Value
named (column, value) = (column, string value)

-- The object that the documentation of `parse_row_edit` shows.
abbrev pub row_edit_json : RowEdit → Value
row_edit_json edit = to_object (
    (text "table", string edit.table)
    ∷ (text "key", to_object (map named edit.key))
    ∷ (text "change", change_json edit.change)
    ∷ [])

abbrev pub key_columns : List (Text × Text) → List Text
key_columns = map (λ p. p.0)

names-named : (ps : List (Text × Text)) → names (map named ps) ≡ key_columns ps
names-named [] = refl
names-named ((column, value) ∷ ps) = ap (◌∷◌ column) (names-named ps)

collect-map :
    {A B E : Type 0} (f : B → Result A E) (g : A → B) (xs : List A)
    → ((a : A) → f (g a) ≡ ok a)
    → collect f (map g xs) ≡ ok xs
unfolding collect
collect-map f g [] h = refl
collect-map f g (x ∷ xs) h = rw (h x, collect-map f g xs h)

cell-cell_json : (p : Text × Text) → cell (cell_json p) ≡ ok p
unfolding cell get eq
cell-cell_json (column, value) = refl

string_member-named : (path : Text) (p : Text × Text) → string_member path (named p) ≡ ok p
unfolding string_member
string_member-named path (column, value) = refl

parse_change-change_json :
    (change : RowChange)
    → change ≢ set_values []
    → parse_change (some (change_json change)) ≡ ok change
unfolding parse_change parse_set eq
parse_change-change_json (set_value column value) h = unfold get in refl
parse_change-change_json (set_values []) h = absurd (h refl)
parse_change-change_json (set_values (p ∷ ps)) h =
    rw (items_of-values (map cell_json ps), collect-map cell cell_json ps cell-cell_json) refl
parse_change-change_json delete_row h = refl

-- An edit that is written as the documentation of `parse_row_edit` shows is read back as it was,
-- if its key has each column once and it does not set a list of no cells.
pub parse_row_edit-row_edit_json :
    (edit : RowEdit)
    → Distinct keys (key_columns edit.key)
    → edit.change ≢ set_values []
    → parse_row_edit (row_edit_json edit) ≡ ok edit
unfolding parse_row_edit get eq
parse_row_edit-row_edit_json edit d h =
    rw
      (
        members_of-members (map named edit.key) (rw (names-named edit.key) d),
        collect-map (string_member (text "key.")) named edit.key
            (string_member-named (text "key.")),
        parse_change-change_json edit.change h,
      )
      refl
