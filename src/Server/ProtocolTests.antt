-- ===== src/Server/ProtocolTests.antt =====
-- Runs of the definitions of Server/Protocol and of the table of Server/Subscriptions/Refines, and
-- their theorems at inputs that exercise them.
use tradar.Base.Map.{insert, lookup, remove, contains, Distinct}
use tradar.Base.{
  ℕ, ◌≢◌, true, false, List, [], ◌∷◌, ◌++◌, some, ◌≡◌, refl, arith, length, Text, text, eq,
}
use tradar.Base.Json.{Value, string, number, to_array, to_object, as_array, keys}
use tradar.Base.Result.{ok, err}
use tradar.Query.Edit.{RowEdit, set_values}
use tradar.Server.Protocol.Error.{invalid}
use tradar.Server.Protocol.Stored.{
  StoredResult, table, documents, approx_bytes, total, page, field_order,
}
use tradar.Server.Protocol.Stored.Pages.{page-append}
use tradar.Server.Protocol.Edits.{parse_row_edit, parse_insert_values, order_insert_values}
use tradar.Server.Protocol.Edits.ReadBack.{key_columns, row_edit_json, parse_row_edit-row_edit_json}
use tradar.Server.Subscriptions.{new, remove_client, subscribe, unsubscribe}
use tradar.Server.Subscriptions.Refines.{Refines}
use tradar.Server.Subscriptions.Refines.Run.{
  Op, subscribing, unsubscribing, leaving, run, replay, Fresh, run-new-Refines,
}

abbrev people : StoredResult
people =
    table (text "id" ∷ text "name" ∷ [])
      ((text "1" ∷ text "ann" ∷ [])
        ∷ (text "2" ∷ text "bob" ∷ [])
        ∷ (text "3" ∷ text "cid" ∷ [])
        ∷ [])
      false

abbrev found : StoredResult
found =
    documents
      (to_object ((text "b", number (some 1)) ∷ (text "a", string (text "x")) ∷ [])
        ∷ number (some 42)
        ∷ [])
      true

people_weigh : approx_bytes people ≡ 228
unfolding approx_bytes
people_weigh = refl

found_weighs : approx_bytes found ≡ 155
unfolding approx_bytes eq
found_weighs = refl

beyond_the_end : page 7 2 people ≡ to_array []
unfolding page
beyond_the_end = refl

keys_in_order :
    field_order 0 10 found
    ≡ some (to_array (to_array (string (text "b") ∷ string (text "a") ∷ []) ∷ Value.null ∷ []))
unfolding field_order eq
keys_in_order = refl

page-append_example :
    (first : List Value) × (second : List Value) × (as_array (page 1 1 people) ≡ some first)
    × (as_array (page 2 5 people) ≡ some second)
    × (as_array (page 1 6 people) ≡ some (first ++ second))
    × (length first ≡ 1)
unfolding total
page-append_example = page-append 1 1 5 people (omega arith)

abbrev edit : RowEdit
edit = record {
  table = text "users";
  key = (text "id", text "1") ∷ (text "day", text "2") ∷ [];
  change = set_values ((text "name", text "it's") ∷ (text "age", text "NULL") ∷ []);
}

edit-Distinct : Distinct keys (key_columns edit.key)
unfolding contains eq
edit-Distinct = (refl, (refl, tt))

edit-changes : edit.change ≢ set_values []
edit-changes = λ e. cc

parse_row_edit-row_edit_json_example : parse_row_edit (row_edit_json edit) ≡ ok edit
parse_row_edit-row_edit_json_example = parse_row_edit-row_edit_json edit edit-Distinct edit-changes

-- A list of no cells is refused.
empty_set_fails :
    parse_row_edit (
      to_object (
        (text "table", string (text "t"))
        ∷ (text "key", to_object [])
        ∷ (text "change", to_object ((text "set", to_array []) ∷ []))
        ∷ []))
    ≡ err (invalid (text "`change.set` must not be empty"))
unfolding parse_row_edit eq
empty_set_fails = refl

bad_insert_fails :
    parse_insert_values (to_object ((text "age", number (some 3)) ∷ []))
    ≡ err (invalid (text "`insert.age` must be a string"))
unfolding parse_insert_values
bad_insert_fails = refl

abbrev cells : List (Text × Text)
cells = (text "c", text "3") ∷ (text "x", text "0") ∷ (text "a", text "1") ∷ []

abbrev columns : List Value
columns = string (text "a") ∷ number (some 1) ∷ string (text "c") ∷ []

cells_ordered :
    order_insert_values cells (some (to_array columns))
    ≡ (text "a", text "1") ∷ (text "c", text "3") ∷ (text "x", text "0") ∷ []
unfolding order_insert_values eq
cells_ordered = refl

-- Two clients; one subscription ends, and a client leaves.
abbrev calls : List (Op ℕ ℕ)
calls =
    subscribing (text "t-1") 7 0 40
    ∷ subscribing (text "t-2") 8 0 41
    ∷ subscribing (text "t-3") 7 1 42
    ∷ subscribing (text "t-4") 7 1 43
    ∷ unsubscribing (text "t-3")
    ∷ leaving 7
    ∷ []

calls-Fresh : Fresh calls []
unfolding lookup eq
calls-Fresh = (refl, (refl, (refl, (refl, tt))))

calls_hand_back : (run calls (new (text "t"))).1 ≡ 42 ∷ 40 ∷ 43 ∷ []
unfolding new unsubscribe lookup subscribe insert eq remove_client remove
calls_hand_back = refl

run-new-Refines_example :
    Refines (run calls (new (text "t"))).0 (replay calls []).0
    × ((run calls (new (text "t"))).1 ≡ (replay calls []).1)
run-new-Refines_example = run-new-Refines (text "t") calls calls-Fresh
