-- ===== src/Query/Source.antt =====
-- crates/tradar-query/src/source.rs: which table the rows of a query come from. `to_ascii_lowercase`
-- and `==` read the keywords.
pub mod Shape
pub mod Single
pub mod Names
use tradar.Base.{
  ℕ, zero, suc, ◌+◌, ◌-◌, Bool, true, false, not, ◌&&◌, ◌||◌, List, [], ◌∷◌, ◌++◌, Option, none,
  some, ◌==◌, if◌then◌else◌, length, drop, is_empty, any, get_elem?, ltb, map, Text, text, eq,
  eq_ignore_ascii_case, lower, one_of, split,
}
use tradar.Query.Statements.{strip_leading_comments}
use tradar.Query.Schema.{SchemaInfo}
use tradar.Query.Tokens.{SqlToken, sql_tokens, is_identifier, is_clause_keyword}

abbrev pub is_keyword : Text → SqlToken → Bool
is_keyword word t = eq_ignore_ascii_case t.word word

abbrev pub at_top : SqlToken → Bool
at_top t = t.depth == 0

-- A top-level word with which the rows are no longer the rows of one table.
unfoldable pub combines : SqlToken → Bool
combines t =
    at_top t
    && one_of (lower t.word) (
        text "join"
        ∷ text "union"
        ∷ text "intersect"
        ∷ text "except"
        ∷ text "group"
        ∷ text "having"
        ∷ text "distinct"
        ∷ [])

abbrev pub is_from : SqlToken → Bool
is_from t = at_top t && is_keyword (text "from") t

-- `position` of the top-level `FROM`, as what stands behind it.
unfoldable pub behind_from : List SqlToken → Option (List SqlToken)
behind_from [] = none
behind_from (t ∷ ts) = if is_from t then some ts else behind_from ts

-- `AS`
unfoldable pub skip_as : List SqlToken → List SqlToken
skip_as [] = []
skip_as (t ∷ ts) = if is_keyword (text "as") t then ts else t ∷ ts

abbrev pub is_alias : (ℕ → Bool) → SqlToken → Bool
is_alias alnum t = is_identifier alnum t.word && not (is_clause_keyword t.word)

unfoldable pub skip_alias : (ℕ → Bool) → List SqlToken → List SqlToken
skip_alias alnum [] = []
skip_alias alnum (t ∷ ts) = if is_alias alnum t then ts else t ∷ ts

-- The last `match`: nothing, or a clause that this code recognises.
unfoldable pub ends_well : List SqlToken → Bool
ends_well [] = true
ends_well (t ∷ ts) = is_clause_keyword t.word

unfoldable pub table_behind : (ℕ → Bool) → List SqlToken → Option Text
unfolding skip_as skip_alias ends_well
table_behind alnum [] = none
table_behind alnum (table ∷ ts) =
    if not (is_identifier alnum table.word)
    then none
    else if ends_well (skip_alias alnum (skip_as ts))
    then some table.word
    else none

abbrev pub and_then : {A B : Type 0} → Option A → (A → Option B) → Option B
and_then none f = none
and_then (some a) f = f a

unfoldable pub table_of : (ℕ → Bool) → List SqlToken → Option Text
unfolding combines behind_from table_behind
table_of alnum [] = none
table_of alnum (first ∷ ts) =
    if not (is_keyword (text "select") first)
    then none
    else if any (is_keyword (text "select")) ts
    then none
    else if any combines (first ∷ ts)
    then none
    else and_then (behind_from (first ∷ ts)) (table_behind alnum)

unfoldable pub single_table_source : (ℕ → Bool) → Text → Option Text
unfolding table_of sql_tokens strip_leading_comments
single_table_source alnum sql = table_of alnum (sql_tokens alnum (strip_leading_comments sql))

-- `rsplit('.').next()`
abbrev last_of : Text → List Text → Text
last_of s [] = s
last_of s (t ∷ ts) = last_of t ts

unfoldable pub last_segment : Text → Text
unfolding split
last_segment name = last_of name (split (λ c. c == b'.') name)

unfoldable pub same_table : Text → Text → Bool
unfolding last_segment
same_table query_name schema_name =
    if eq_ignore_ascii_case query_name schema_name
    then true
    else eq_ignore_ascii_case (last_segment query_name) schema_name
      || eq_ignore_ascii_case query_name (last_segment schema_name)

-- `counts[name]`
unfoldable pub times : Text → List SchemaInfo → ℕ
times name [] = 0
times name (e ∷ es) = (if eq e.name name then 1 else 0) + times name es

-- `if let Some(schema)`
abbrev pub in_schema : Option Text → SchemaInfo → SchemaInfo
in_schema none e = e
in_schema (some schema) e = record e { name = schema ++ b'.' ∷ e.name }

unfoldable pub qualified : List SchemaInfo → SchemaInfo → SchemaInfo
unfolding times
qualified all e = if ltb 1 (times e.name all) then in_schema e.schema e else e

unfoldable pub qualify_colliding_names : List SchemaInfo → List SchemaInfo
unfolding qualified
qualify_colliding_names es = map (qualified es) es
