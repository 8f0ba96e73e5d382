-- ===== src/Query/Joined.antt =====
-- crates/tradar-query/src/source.rs, `joined_column_sources`: which table each column of a query on
-- several tables comes from. A token that begins a slice is the head of what is left.
pub mod Explained
use tradar.Base.{
  ℕ, Bool, true, false, not, ◌&&◌, ◌||◌, List, [], ◌∷◌, Option, none, some, ◌==◌, if◌then◌else◌,
  length, replicate, drop, any, Text, text, eq,
}
use tradar.Query.Statements.{strip_leading_comments}
use tradar.Query.Tokens.{SqlToken, sql_tokens}
use tradar.Query.Source.{is_keyword, is_from, at_top, and_then}
use tradar.Query.Completion.{resolve_alias}

-- The tokens in front of the first `FROM` at the top.
unfoldable pub up_to_from : List SqlToken → Option (List SqlToken)
up_to_from [] = none
up_to_from (t ∷ ts) =
    let rest = up_to_from ts in if is_from t then some [] else and_then rest (λ l. some (t ∷ l))

abbrev pub is_comma : SqlToken → Bool
is_comma t = at_top t && eq t.word (text ",")

abbrev pub onto_item : SqlToken → List (List SqlToken) → List (List SqlToken)
onto_item t [] = (t ∷ []) ∷ []
onto_item t (item ∷ items) = (t ∷ item) ∷ items

-- The items of the select list, split at its commas.
unfoldable pub select_items : List SqlToken → List (List SqlToken)
unfolding eq
select_items [] = [] ∷ []
select_items (t ∷ ts) =
    let rest = select_items ts in if is_comma t then [] ∷ rest else onto_item t rest

-- `ends_with('.')`
unfoldable pub ends_with_dot : Text → Bool
ends_with_dot [] = false
ends_with_dot (c ∷ []) = c == b'.'
ends_with_dot (c ∷ d ∷ s) = ends_with_dot (d ∷ s)

abbrev pub star_next : List SqlToken → Bool
star_next [] = false
star_next (t ∷ ts) = eq t.word (text "*")

unfoldable pub is_star : SqlToken → List SqlToken → Bool
unfolding ends_with_dot eq
is_star first more = eq first.word (text "*") || (ends_with_dot first.word && star_next more)

-- `rsplit_once('.')`, what stands in front
unfoldable pub before_last_dot : Text → Option Text
before_last_dot [] = none
before_last_dot (c ∷ cs) =
    let later = before_last_dot cs in
    elim later [ some a ↦ some (c ∷ a) | none ↦ if c == b'.' then some [] else none ]

unfoldable pub source_of : (ℕ → Bool) → List SqlToken → SqlToken → Option Text
unfolding before_last_dot resolve_alias
source_of alnum tokens first = and_then (before_last_dot first.word) (resolve_alias alnum tokens)

-- The loop over the items: nothing as soon as one of them is a star.
unfoldable pub sources_of :
    (ℕ → Bool) → List SqlToken → List (List SqlToken) → Option (List (Option Text))
unfolding is_star source_of
sources_of alnum tokens [] = some []
sources_of alnum tokens ([] ∷ items) =
    and_then (sources_of alnum tokens items) (λ l. some (none ∷ l))
sources_of alnum tokens ((first ∷ more) ∷ items) =
    let rest = sources_of alnum tokens items in
    if is_star first more
    then none
    else and_then rest (λ l. some (source_of alnum tokens first ∷ l))

-- `sources`, if there are as many as columns
abbrev pub aligned : ℕ → Option (List (Option Text)) → List (Option Text)
aligned columns none = replicate columns none
aligned columns (some sources) =
    if length sources == columns then sources else replicate columns none

unfoldable pub joined_of : (ℕ → Bool) → List SqlToken → ℕ → List (Option Text)
unfolding up_to_from select_items sources_of
joined_of alnum [] columns = replicate columns none
joined_of alnum (first ∷ ts) columns =
    if not (is_keyword (text "select") first)
    then replicate columns none
    else if any (is_keyword (text "select")) ts
    then replicate columns none
    else aligned columns (
        and_then (up_to_from (first ∷ ts))
          λ list. sources_of alnum (first ∷ ts) (select_items (drop 1 list)))

unfoldable pub joined_column_sources : (ℕ → Bool) → Text → List Text → List (Option Text)
unfolding joined_of sql_tokens strip_leading_comments
joined_column_sources alnum sql columns =
    joined_of alnum (sql_tokens alnum (strip_leading_comments sql)) (length columns)
