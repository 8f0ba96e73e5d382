-- ===== src/Server/Protocol/Stored.antt =====
-- crates/tradar-server/src/protocol.rs, `StoredResult`: a result that is kept for paging.
pub mod Pages
use tradar.Base.{
  ℕ, ◌+◌, ◌-◌, Bool, List, [], ◌∷◌, ◌++◌, map, Option, none, some, length, take, drop, min, Text,
  text, len,
}
use tradar.Base.Json.{
  Value, null, boolean, number, string, array, object, Values, end, item, Members, done, member,
  members_of, as_object, to_array,
}
use tradar.Base.Result.{Result, ok, err}
use tradar.Query.Fetch.{row_bytes}
use tradar.Query.Schema.{QueryResult}

pub data StoredResult : Type 0 where
  table : List Text → List (List Text) → Bool → StoredResult
  documents : List Value → Bool → StoredResult

unfoldable pub from_query : QueryResult Value → Result StoredResult ℕ
from_query (QueryResult.table columns rows truncated) = ok (table columns rows truncated)
from_query (QueryResult.documents items truncated) = ok (documents items truncated)
from_query (QueryResult.affected rows) = err rows

unfoldable mutual
  unfolding len

  pub json_size : Value → ℕ
  json_size (string s) = len s + 24
  json_size (array items) = 24 + items_size items
  json_size (object members) = 48 + members_size members
  json_size _ = 16

  pub items_size : Values → ℕ
  items_size end = 0
  items_size (item v vs) = json_size v + items_size vs

  pub members_size : Members → ℕ
  members_size done = 0
  members_size (member k v ms) = len k + 24 + json_size v + members_size ms

abbrev sum_by : {A : Type 0} → (A → ℕ) → List A → ℕ
sum_by f [] = 0
sum_by f (x ∷ xs) = f x + sum_by f xs

unfoldable pub approx_bytes : StoredResult → ℕ
unfolding row_bytes json_size
approx_bytes (table columns rows truncated) = sum_by (λ row. 24 + row_bytes row) rows
approx_bytes (documents items truncated) = sum_by json_size items

unfoldable pub total : StoredResult → ℕ
total (table columns rows truncated) = length rows
total (documents items truncated) = length items

unfoldable pub is_truncated : StoredResult → Bool
is_truncated (table columns rows truncated) = truncated
is_truncated (documents items truncated) = truncated

unfoldable pub kind : StoredResult → Text
kind (table columns rows truncated) = text "table"
kind (documents items truncated) = text "documents"

unfoldable pub columns_of : StoredResult → Option (List Text)
columns_of (table columns rows truncated) = some columns
columns_of (documents items truncated) = none

abbrev pub usize_max : ℕ
usize_max = 18446744073709551615

-- `offset.saturating_add(limit).min(len)`, and the slice up to there
unfoldable pub window : {A : Type 0} → ℕ → ℕ → List A → List A
window offset limit items =
    let end = min (min (offset + limit) usize_max) (length items) in
    let start = min offset end in take (end - start) (drop start items)

abbrev pub row_json : List Text → Value
row_json row = to_array (map string row)

unfoldable pub page : ℕ → ℕ → StoredResult → Value
unfolding window
page offset limit (table columns rows truncated) =
    to_array (map row_json (window offset limit rows))
page offset limit (documents items truncated) = to_array (window offset limit items)

abbrev pub field_names : Option (List (Text × Value)) → Value
field_names none = null
field_names (some members) = to_array (map (λ m. string m.0) members)

unfoldable pub field_order : ℕ → ℕ → StoredResult → Option Value
unfolding window
field_order offset limit (table columns rows truncated) = none
field_order offset limit (documents items truncated) =
    some (to_array (map (λ v. field_names (as_object v)) (window offset limit items)))
