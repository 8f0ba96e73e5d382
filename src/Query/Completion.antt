-- ===== src/Query/Completion.antt =====
-- crates/tradar-query/src/completion.rs: what the text in front of the cursor asks to complete. A
-- slice of the tokens from an index on is what is left of the list there.
pub mod Aliases
use tradar.Base.{
  ℕ, zero, suc, ◌+◌, ◌-◌, Bool, true, false, not, ◌&&◌, ◌||◌, List, [], ◌∷◌, ◌++◌, map, Option,
  none, some, ◌==◌, ltb, if◌then◌else◌, length, drop, take, is_empty, any, Text, text, eq,
  eq_ignore_ascii_case, lower, one_of, find, strip_prefix, position,
}
use tradar.Query.Schema.{SchemaInfo, ColumnInfo}
use tradar.Query.Tokens.{SqlToken, sql_tokens, is_identifier, is_clause_keyword}
use tradar.Query.Source.{is_keyword, at_top, skip_as, and_then}

pub data CompletionContext : Type 0 where
  nothing : CompletionContext
  table_columns : Text → CompletionContext
  join_target : List Text → CompletionContext
  mongo_method : CompletionContext
  schema_qualified_table : Text → CompletionContext

pub record TableRef : Type 0 where
  pub table : Text
  pub alias : Option Text

unfoldable pub is_alias_stopword : Text → Bool
unfolding is_clause_keyword
is_alias_stopword word =
    is_clause_keyword word
    || one_of (lower word) (
        text "join"
        ∷ text "inner"
        ∷ text "left"
        ∷ text "right"
        ∷ text "full"
        ∷ text "outer"
        ∷ text "cross"
        ∷ text "on"
        ∷ text "using"
        ∷ [])

-- `get(next).filter(..)`
abbrev pub alias_of : (ℕ → Bool) → List SqlToken → Option Text
alias_of alnum [] = none
alias_of alnum (t ∷ ts) =
    if is_identifier alnum t.word && not (is_alias_stopword t.word) then some t.word else none

-- The reference that stands behind `FROM` or `JOIN`, if there is one.
unfoldable pub ref_behind : (ℕ → Bool) → List SqlToken → List TableRef
unfolding skip_as
ref_behind alnum [] = []
ref_behind alnum (table ∷ ts) =
    if is_identifier alnum table.word
    then record { table = table.word; alias = alias_of alnum (skip_as ts) } ∷ []
    else []

abbrev pub is_source : SqlToken → Bool
is_source t = at_top t && one_of (lower t.word) (text "from" ∷ text "join" ∷ [])

unfoldable pub from_join_table_refs : (ℕ → Bool) → List SqlToken → List TableRef
unfolding ref_behind
from_join_table_refs alnum [] = []
from_join_table_refs alnum (t ∷ ts) =
    (if is_source t then ref_behind alnum ts else []) ++ from_join_table_refs alnum ts

-- `match &r.alias`
abbrev pub goes_by : Text → TableRef → Bool
goes_by alias r = elim r.alias [
  | none ↦ eq_ignore_ascii_case r.table alias
  | some a ↦ eq_ignore_ascii_case a alias
]

-- `find_map`
unfoldable pub first_by : Text → List TableRef → Option Text
first_by alias [] = none
first_by alias (r ∷ rs) = if goes_by alias r then some r.table else first_by alias rs

unfoldable pub resolve_alias : (ℕ → Bool) → List SqlToken → Text → Option Text
unfolding first_by from_join_table_refs
resolve_alias alnum tokens alias = first_by alias (from_join_table_refs alnum tokens)

-- `&rest[..end]`, unless it is empty
abbrev unless_empty : Text → Option Text
unless_empty [] = none
unless_empty (c ∷ cs) = some (c ∷ cs)

unfoldable pub mongo_call_collection : Text → Option Text
unfolding strip_prefix position
mongo_call_collection word =
    and_then (strip_prefix (text "db.") word)
      λ rest. and_then (position b'.' rest) λ end. unless_empty (take end rest)

-- The tokens in the opposite order.
abbrev pub backwards : List SqlToken → List SqlToken → List SqlToken
backwards done [] = done
backwards done (t ∷ ts) = backwards (t ∷ done) ts

-- `rev().find_map`, over the tokens from the last to the first
unfoldable pub call_around : ℕ → List SqlToken → Option Text
call_around depth [] = none
call_around depth (t ∷ ts) =
    let earlier = call_around depth ts in
    if ltb t.depth depth
    then elim (mongo_call_collection t.word) [ none ↦ earlier | some name ↦ some name ]
    else earlier

unfoldable pub mongo_collection_in_scope : List SqlToken → Option Text
unfolding call_around
mongo_collection_in_scope tokens = elim (backwards [] tokens) [
  | [] ↦ none
  | last ∷ earlier ↦ if any (λ c. c == b'.') last.word then none else call_around last.depth earlier
]

abbrev pub table_or_nothing : Option Text → CompletionContext
table_or_nothing none = nothing
table_or_nothing (some table) = table_columns table

abbrev pub alias_context : Text → Option Text → CompletionContext
alias_context alias none = schema_qualified_table alias
alias_context alias (some table) = table_columns table

-- The tokens in front of the `JOIN` that ends the text, or that a partial name follows; `before`
-- has the tokens in front of the last one, from the last to the first.
unfoldable pub before_join : SqlToken → List SqlToken → Option (List SqlToken)
before_join last before =
    if is_keyword (text "join") last then some (backwards [] before) else elim before [
      | [] ↦ none
      | t ∷ ts ↦ if is_keyword (text "join") t then some (backwards [] ts) else none
    ]

-- The part of `completion_context` behind the test on a dot.
unfoldable pub plain_context :
    (ℕ → Bool) → List SqlToken → SqlToken → List SqlToken → CompletionContext
unfolding before_join from_join_table_refs mongo_collection_in_scope
plain_context alnum tokens last before = elim (before_join last before) [
  | some known ↦ join_target (map (λ r. r.table) (from_join_table_refs alnum known))
  | none ↦ table_or_nothing (mongo_collection_in_scope tokens)
]

-- The part for a last word with a dot at `dot`.
unfoldable pub dotted_context : (ℕ → Bool) → List SqlToken → Text → ℕ → CompletionContext
unfolding mongo_call_collection resolve_alias
dotted_context alnum tokens word dot = elim (mongo_call_collection word) [
  | some _ ↦ mongo_method
  | none ↦
      if is_empty (take dot word)
      then nothing
      else alias_context (take dot word) (resolve_alias alnum tokens (take dot word))
]

unfoldable pub context_of : (ℕ → Bool) → List SqlToken → CompletionContext
unfolding plain_context dotted_context
context_of alnum tokens = elim (backwards [] tokens) [
  | [] ↦ nothing
  | last ∷ before ↦ elim (position b'.' last.word) [
    | some dot ↦ dotted_context alnum tokens last.word dot
    | none ↦ plain_context alnum tokens last before
  ]
]

unfoldable pub completion_context : (ℕ → Bool) → Text → CompletionContext
unfolding context_of sql_tokens
completion_context alnum text_before_cursor = context_of alnum (sql_tokens alnum text_before_cursor)

-- `schema.iter().find(|entry| entry.name == name)`
unfoldable pub entry_named : Text → List SchemaInfo → Option SchemaInfo
entry_named name [] = none
entry_named name (e ∷ es) = if eq e.name name then some e else entry_named name es

-- The types of the columns collected into a map: of two columns with a name, the later one counts.
unfoldable pub type_of : Text → List ColumnInfo → Option Text
type_of name [] = none
type_of name (c ∷ cs) = elim (type_of name cs) [
  | some t ↦ some t
  | none ↦ if eq c.name name then some c.type_name else none
]

unfoldable pub column_types : List Text → List SchemaInfo → Option Text → List (Option Text)
unfolding entry_named type_of
column_types columns schema table = elim (and_then table λ name. entry_named name schema) [
  | none ↦ map (λ c. none) columns
  | some entry ↦ map (λ c. type_of c entry.columns) columns
]
